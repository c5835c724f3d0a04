-- ===== src/Db/Readable.antt =====
-- The documents that the file stores can be read back.
use embediq_cloud.Prelude.{◌≡◌, true, is_some, All}
use embediq_cloud.Json.{Codec}
use embediq_cloud.Json.Dict.{dict_of}
use embediq_cloud.Db.{Db, Device, DeviceShadow}

module _ (C : Codec) where
  abbrev pub ReadsDevice : Device C.Text → Type 0
  ReadsDevice d = is_some (C.loads d.attributes) ≡ true

  abbrev pub ReadsShadow : DeviceShadow C.Text → Type 0
  ReadsShadow s = (is_some (dict_of C s.desired) ≡ true) × (is_some (dict_of C s.reported) ≡ true)

  -- The attributes of every device are a document, and both documents of every shadow are dicts.
  pub record IsReadable (db : Db C.Text) : Type 0 where
    pub attributes : All ReadsDevice db.devices
    pub shadows : All ReadsShadow db.device_shadow
