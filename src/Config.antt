-- ===== src/Config.antt =====
-- The configuration manager (pkg/config/manager.go). What a load or a read of the file gives is up to the
-- world, which may change the file at any time; `hash` is SHA-256. Each operation holds the lock from its
-- first use of the manager to its last, except that the callbacks run after the lock is released.
pub mod Laws
use ship_status_dash.Base.{
  String, Bool, true, false, List, [], ◌∷◌, ◌++◌, Bytes, Result, ok, err, ◌==◌, string_eq,
}
use ship_status_dash.Env.{Error}

-- The file: its content, and the configuration that `loadFunc` makes of it, each as it is at the time.
pub record File (S T : Type 0) : Type 0 where
  pub read : S → Result Error Bytes × S
  pub load : S → Result Error T × S
  pub hash : Bytes → String

pub record Manager (S T : Type 0) : Type 0 where
  pub config : T
  pub update_callbacks : List (T → S → S)
  pub last_hash : String

module _ {S T : Type 0} (file : File S T) where
  abbrev initial_hash : Result Error Bytes → String
  initial_hash (err e) = ""
  initial_hash (ok bytes) = file.hash bytes

  abbrev started : Result Error T × S → Result Error (Manager S T) × S
  started (err e, s) = (err e, s)
  started (ok config, s) =
      let (bytes, s') = file.read s in
      (ok (record { config = config; update_callbacks = []; last_hash = initial_hash bytes }), s')

  unfoldable pub new_manager : S → Result Error (Manager S T) × S
  new_manager s = started (file.load s)

  abbrev call_each : List (T → S → S) → T → S → S
  call_each [] config s = s
  call_each (callback ∷ callbacks) config s = call_each callbacks config (callback config s)

  abbrev reloaded : Manager S T → String → Result Error T × S → Manager S T × S
  reloaded m hash (err e, s) = (m, s)
  reloaded m hash (ok config, s) =
      (record m { config = config; last_hash = hash }, call_each m.update_callbacks config s)

  abbrev reload_for : Manager S T → String → Bool → S → Manager S T × S
  reload_for m hash true s = (m, s)
  reload_for m hash false s = reloaded m hash (file.load s)

  abbrev reload_after : Manager S T → Result Error Bytes × S → Manager S T × S
  reload_after m (err e, s) = (m, s)
  reload_after m (ok bytes, s) = reload_for m (file.hash bytes) (file.hash bytes == m.last_hash) s

  -- One tick of `Watch`.
  unfoldable pub reload_if_changed : Manager S T → S → Manager S T × S
  reload_if_changed m s = reload_after m (file.read s)

  unfoldable pub get : Manager S T → T
  get m = m.config

  unfoldable pub on_update : (T → S → S) → Manager S T → Manager S T
  on_update callback m = record m { update_callbacks = m.update_callbacks ++ (callback ∷ []) }
