-- ===== src/Tests/Environment.antt =====
-- Settings from an environment.
use embediq_cloud.Prelude.{◌≡◌, refl, String, ◌==◌, Option, none, some, ◌+++◌, if◌then◌else◌}
use embediq_cloud.Outcome.{raised, configuration_error}
use embediq_cloud.Config.{Environ, get_settings}
use embediq_cloud.Config.Classes.{Pydantic, settings_class}
use embediq_cloud.Config.Fields.{get_settings_lem}

abbrev or_default : {A : Type 0} → Option String → A → Option A
or_default none default = some default
or_default (some s) default = none

-- flags and integers that are set are errors
abbrev texts_only : Pydantic
texts_only = record {
  text = λ env name default. elim (env name) [ none ↦ default | some s ↦ some s ];
  flag = λ env name b. or_default (env name) b;
  integer = λ env name n. or_default (env name) n;
  text-set = λ env name s default e. rw e refl;
  text-unset = λ env name default e. rw e refl;
  flag-unset = λ env name b e. rw e refl;
  integer-unset = λ env name n e. rw e refl;
}

abbrev with_hash : Environ
with_hash name = if name == "ADMIN_PASS_HASH" then some "hash" else none

get_settings_lem_example :
    (get_settings (settings_class texts_only) with_hash none).0
    ≡ raised (
        configuration_error (
          "Missing/invalid required configuration: JWT_SECRET. "
          +++ "Set ADMIN_PASS_HASH and JWT_SECRET (see .env.example / run ./install.sh)."))
get_settings_lem_example = get_settings_lem texts_only with_hash
