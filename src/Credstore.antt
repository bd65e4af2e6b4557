-- ===== src/Credstore.antt =====
-- internal/credstore: the config store that moves the collector key and the pending key into the
-- keychain of the system (credstore.go, backend.go). The keychain is an argument with a state of its
-- own, so that each of its calls may fail; what is relied on is in `IsLawful`. `saves` tells whether the
-- one save of the config file that a call may make succeeds, and a failed one leaves the file.
pub mod Keeping
pub mod Saving
pub mod Loading
use desktop_client.Base.{
  ℕ, Bool, true, false, ◌||◌, ◌==◌, Str, lit, str_eq, Option, none, some, [], ◌≡◌, ◌⊎◌,
  if◌then◌else◌,
}
use desktop_client.Base.Results.{Result, ok, err}
use desktop_client.Config.{Config}

pub data Account : Type 0 where
  active_key pending_key : Account

-- An entry, the lack of one, or an error.
pub data GetAnswer : Type 0 where
  found : Str → GetAnswer
  absent failed : GetAnswer

-- A write and a delete answer whether they succeeded.
pub record Backend (K : Type 0) : Type 0 where
  pub is_file : Bool
  pub get : Account → K → K × GetAnswer
  pub set : Account → Str → K → K × Bool
  pub delete : Account → K → K × Bool

-- What a keychain does for its callers, by what it durably holds: a read that finds an entry finds what
-- is held, and no read changes an entry; a write of one account, failed or not, leaves the other account
-- alone, and of its own it leaves what was held or what is written; a delete leaves the other account.
pub record IsLawful {K : Type 0} (b : Backend K) (holds : Account → K → Option Str) : Type 0 where
  pub get-found : (a : Account) (k : K) (s : Str) → (b.get a k).1 ≡ found s → holds a k ≡ some s
  pub get-holds : (a a' : Account) (k : K) → holds a' (b.get a k).0 ≡ holds a' k
  pub set-holds :
      (a : Account) (s : Str) (k : K)
      → (holds a (b.set a s k).0 ≡ holds a k) ⊎ (holds a (b.set a s k).0 ≡ some s)
  pub set-other :
      (s : Str) (k : K) → holds active_key (b.set pending_key s k).0 ≡ holds active_key k
  pub delete-other : (k : K) → holds active_key (b.delete pending_key k).0 ≡ holds active_key k

-- BackendStatus, by its name and its detail.
pub data BackendStatus : Type 0 where
  file_forced file_no_key file_fallback : BackendStatus
  keychain_active keychain_not_scrubbed keychain_read_failed keychain_key_missing : BackendStatus
  keychain_discard_not_saved : BackendStatus

pub data Error : Type 0 where
  no_config backend_unavailable save_failed : Error

-- `file` is the config file, `none` where it cannot be loaded.
pub record Store (K : Type 0) : Type 0 where
  pub file : Option Config
  pub keys : K
  pub status : BackendStatus

abbrev pub backend_keychain : Str
backend_keychain = lit "keychain"

abbrev pub in_keychain : Config → Bool
in_keychain c = str_eq c.credential_backend backend_keychain

abbrev pub unmarked : Config → Config
unmarked c = record c { credential_backend = [] }

abbrev pub scrubbed : Config → Config
scrubbed c = record c {
  collector_key = [];
  pending_key = [];
  credential_backend = backend_keychain;
}

abbrev pub discard_pending : Config → Config
discard_pending c = record c {
  pending_key = [];
  pending_key_expires = [];
  old_key_valid_until = [];
  pending_key_id = 0;
}

module _ {K : Type 0} where
  -- config.Store's Save: whether it succeeded.
  abbrev pub inner_save : Bool → Config → Store K → Store K × Bool
  inner_save true cfg s = (record s { file = some cfg }, true)
  inner_save false cfg s = (s, false)

  -- The config is marked only after the save.
  abbrev pub after_scrub : Config → Store K × Bool → Store K × Config × Bool
  after_scrub cfg (s, true) = (
    record s { status = keychain_active },
    record cfg { credential_backend = backend_keychain },
    true,
  )
  after_scrub cfg (s, false) = (s, cfg, false)

  unfoldable pub save_scrubbed : Bool → Config → Store K → Store K × Config × Bool
  save_scrubbed saves cfg s = after_scrub cfg (inner_save saves (scrubbed cfg) s)

  abbrev pub save_plain : Bool → Config → BackendStatus → Store K → Store K × Config × Bool
  save_plain saves cfg status s =
      let (s', saved) = inner_save saves (unmarked cfg) (record s { status = status }) in
      (s', unmarked cfg, saved)

  abbrev pub migrate_scrubbed : Config → Store K × Config × Bool → Store K × Config
  migrate_scrubbed cfg (s, marked, true) = (s, marked)
  migrate_scrubbed cfg (s, marked, false) = (record s { status = keychain_not_scrubbed }, cfg)

  abbrev pub after_discard : Store K × Config × Bool → Store K × Config
  after_discard (s, cfg, true) = (s, cfg)
  after_discard (s, cfg, false) = (record s { status = keychain_discard_not_saved }, cfg)

  abbrev pub hydrate_answer : Bool → Config → Store K → K × GetAnswer → Store K × Config
  hydrate_answer saves cfg s (k, found pending) =
      (record s { keys = k }, record cfg { pending_key = pending })
  hydrate_answer saves cfg s (k, _) =
      after_discard (save_scrubbed saves (discard_pending cfg) (record s { keys = k }))

  abbrev pub with_active : Store K × Config → Store K × Result Error Config
  with_active (s, cfg) = (record s { status = keychain_active }, ok cfg)

  abbrev pub migrated : Store K × Config → Store K × Result Error Config
  migrated (s, cfg) = (s, ok cfg)

module _ {K : Type 0} (b : Backend K) where
  abbrev pub matches : Str → GetAnswer → Bool
  matches secret (found got) = str_eq got secret
  matches secret _ = false

  -- The entry is read back before the file's copy may go.
  abbrev pub verify_written : Account → Str → K × Bool → K × Bool
  verify_written account secret (k, false) = (k, false)
  verify_written account secret (k, true) =
      let (k', answer) = b.get account k in (k', matches secret answer)

  unfoldable pub write_verified : Account → Str → K → K × Bool
  write_verified account secret k = verify_written account secret (b.set account secret k)

  abbrev pub write_pending : Config → K × Bool → K × Bool
  write_pending cfg (k, false) = (k, false)
  write_pending cfg (k, true) =
      if str_eq cfg.pending_key []
      then ((b.delete pending_key k).0, true)
      else write_verified pending_key cfg.pending_key k

  -- A failed write of the pending key leaves the active one, and a failed delete does not count.
  unfoldable pub write_secrets : Config → K → K × Bool
  unfolding write_verified
  write_secrets cfg k = write_pending cfg (write_verified active_key cfg.collector_key k)

  abbrev pub save_written : Bool → Config → Store K → K × Bool → Store K × Config × Bool
  save_written saves cfg s (k, true) = save_scrubbed saves cfg (record s { keys = k })
  save_written saves cfg s (k, false) = save_plain saves cfg file_fallback (record s { keys = k })

  -- The store, the config as the call leaves it, and whether it succeeded.
  unfoldable pub save : Bool → Config → Store K → Store K × Config × Bool
  unfolding write_secrets save_scrubbed
  save saves cfg s =
      if b.is_file
      then save_plain saves cfg file_forced s
      else if str_eq cfg.collector_key []
      then save_plain saves cfg file_no_key s
      else save_written saves cfg s (write_secrets cfg s.keys)

  abbrev pub migrate_written : Bool → Config → Store K → K × Bool → Store K × Config
  migrate_written saves cfg s (k, false) = (record s { keys = k; status = file_fallback }, cfg)
  migrate_written saves cfg s (k, true) =
      migrate_scrubbed cfg (save_scrubbed saves cfg (record s { keys = k }))

  unfoldable pub migrate_on_load : Bool → Config → Store K → Store K × Config
  unfolding write_secrets save_scrubbed
  migrate_on_load saves cfg s =
      if b.is_file
      then (record s { status = file_forced }, cfg)
      else if str_eq cfg.collector_key []
      then (record s { status = file_no_key }, cfg)
      else migrate_written saves cfg s (write_secrets cfg s.keys)

  -- A pending key that cannot be read is given up, and the rotation with it.
  unfoldable pub hydrate_pending : Bool → Config → Store K → Store K × Config
  unfolding save_scrubbed
  hydrate_pending saves cfg s = hydrate_answer saves cfg s (b.get pending_key s.keys)

  abbrev pub hydrate_active :
      Bool → Config → Store K → K × GetAnswer → Store K × Result Error Config
  hydrate_active saves cfg s (k, failed) =
      (record s { keys = k; status = keychain_read_failed }, err backend_unavailable)
  hydrate_active saves cfg s (k, absent) =
      (record s { keys = k; status = keychain_key_missing }, err backend_unavailable)
  hydrate_active saves cfg s (k, found key) =
      let cfg' = record cfg { collector_key = key } in
      let s' = record s { keys = k } in
      with_active (if cfg.pending_key_id == 0 then (s', cfg') else hydrate_pending saves cfg' s')

  unfoldable pub hydrate : Bool → Config → Store K → Store K × Result Error Config
  unfolding hydrate_pending
  hydrate saves cfg s = hydrate_active saves cfg s (b.get active_key s.keys)

  abbrev pub load_file : Bool → Store K → Option Config → Store K × Result Error Config
  load_file saves s none = (s, err no_config)
  load_file saves s (some cfg) =
      if in_keychain cfg then hydrate saves cfg s else migrated (migrate_on_load saves cfg s)

  unfoldable pub load : Bool → Store K → Store K × Result Error Config
  unfolding hydrate migrate_on_load
  load saves s = load_file saves s s.file

-- fileBackend: nothing is held, and no call changes that.
abbrev pub file_backend : Backend (Unit {0})
file_backend = record {
  is_file = true;
  get = λ a k. (k, absent);
  set = λ a s k. (k, true);
  delete = λ a k. (k, true);
}
