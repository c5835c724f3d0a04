-- ===== src/Ota/Threads.antt =====
-- The command endpoint as a thread: the SELECT, and the message.
use embediq_cloud.Prelude.{
  ◌≡◌, refl, ◌+++◌, String, Bool, true, false, not, arith, is_some, [], ◌∷◌, if◌then◌else◌,
}
use embediq_cloud.Outcome.{returned, raised, http_exception}
use embediq_cloud.Json.{bool, object, Codec}
use embediq_cloud.Envelope.{ok}
use embediq_cloud.Db.{Db, find_device}
use embediq_cloud.Db.Threads.{Thread, returns, reads, sends, run_alone}
use embediq_cloud.Db.Threads.Safe.{IsSafeThread, Safe-returns, Safe-reads, Safe-sends, Safe-if}
use embediq_cloud.Mqtt.{Message, publish}
use embediq_cloud.Registry.Devices.{not_found}
use embediq_cloud.Ota.{CmdRequest, is_valid_cmd, cmd_topic, cmd_payload, device_cmd}

module _ (C : Codec) (takes : Message C.Text → Bool) (k : String) (body : CmdRequest) where
  abbrev pub cmd_thread : Thread C.Text
  cmd_thread =
      if not (is_valid_cmd body.cmd)
      then returns (raised (http_exception 400 ("invalid cmd: " +++ body.cmd)))
      else reads (λ db.
        if is_some (find_device k db)
        then sends (publish C takes (cmd_topic k) (cmd_payload C takes body) false)
            (returns (returned (ok (object (("published", bool true) ∷ [])))))
        else returns (raised not_found))

  pub run_alone-cmd_thread :
      (db : Db C.Text)
      → let (r, ms) = device_cmd C takes k body db in run_alone cmd_thread db ≡ (r, db, ms)
  unfolding device_cmd publish
  run_alone-cmd_thread db = ground arith

  pub cmd_thread-IsSafe : IsSafeThread C cmd_thread
  cmd_thread-IsSafe = Safe-if C _ _ _ (Safe-returns C _ refl) (
      Safe-reads C _ (λ db h.
        Safe-if C _ _ _ (Safe-sends C _ _ (Safe-returns C _ refl)) (Safe-returns C _ refl)))
