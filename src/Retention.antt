-- ===== src/Retention.antt =====
-- `require_delete_permitted` of retention/__init__.py.
use meridian_ociadapter.Prelude.{ℕ, not, Option, none, some, if◌then◌else◌}
use meridian_ociadapter.Effect.{Result, ok, err, value_error, retention_denied}
use meridian_ociadapter.ObjectCommon.{ObjectCommon, RetentionRequest, Datetime}

module _ (O : ObjectCommon) where
  abbrev permitted_at : RetentionRequest → Option ℕ → ℕ → Result (Unit {0})
  permitted_at retention none now = err retention_denied
  permitted_at retention (some _) now = O.require_delete_allowed retention now

  -- The time is given; only its time zone is checked.
  unfoldable pub require_delete_permitted : Option RetentionRequest → Datetime → Result (Unit {0})
  require_delete_permitted none now = ok tt
  require_delete_permitted (some retention) now =
      if not now.aware
      then err value_error
      else permitted_at retention retention.retain_until now.instant
