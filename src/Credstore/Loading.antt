-- ===== src/Credstore/Loading.antt =====
-- What a load leaves and answers, and what it answers after a save.
use desktop_client.Base.{
  ◌≡◌, refl, sym, ◌∙◌, Bool, true, false, Str, str_eq, Option, none, some, [], if◌then◌else◌,
  if_both, ◌==◌,
}
use desktop_client.Base.Results.{Result, ok, err}
use desktop_client.Config.{Config}
use desktop_client.Credstore.{
  Account, active_key, pending_key, GetAnswer, found, absent, failed, Backend, IsLawful, Error,
  Store, in_keychain, discard_pending, save_scrubbed, write_secrets, migrate_written,
  migrate_on_load, after_discard, hydrate_answer, hydrate_pending, with_active, hydrate_active,
  hydrate, migrated, load_file, load, save,
}
use desktop_client.Credstore.Saving.{Replaced-done, save-Replaced}
use desktop_client.Credstore.Keeping.{HeldBy, HeldIn, Held, write_secrets-holds}

module _ {K : Type 0} (b : Backend K) (holds : Account → K → Option Str) where
  abbrev pub Gives : Str → Result Error Config → Type 0
  Gives key (ok c) = c.collector_key ≡ key
  Gives key (err e) = Unit

  -- The answer is a config with the key.
  abbrev pub Answers : Str → Result Error Config → Type 0
  Answers key (ok c) = c.collector_key ≡ key
  Answers key (err e) = ⊥

  -- The keychain can be read.
  abbrev pub IsReadable : Type 0
  IsReadable =
      (key : Str) (k : K) → holds active_key k ≡ some key → (b.get active_key k).1 ≡ found key

  -- The key is held, and an answer has it.
  abbrev pub Kept : Str → Store K × Result Error Config → Type 0
  Kept key (s, r) = Held b holds key s × Gives key r

  -- The same for the store and the config inside a load.
  abbrev KeptIn : Str → Store K × Config → Type 0
  KeptIn key (s, c) = Held b holds key s × (c.collector_key ≡ key)

  -- The file is unmarked and has the key.
  abbrev InFile : Str → Store K → Type 0
  InFile key s =
      (c : Config) × (s.file ≡ some c) × (in_keychain c ≡ false) × (c.collector_key ≡ key)

  InFile-Held : (key : Str) (s : Store K) → InFile key s → Held b holds key s
  InFile-Held key s (c, e, m, h) = rw e (rw m h)

  module _ (lawful : IsLawful b holds) where
    migrate_written-KeptIn :
        (saves : Bool) (cfg : Config) (s : Store K) (r : K × Bool)
        → (r.1 ≡ true → holds active_key r.0 ≡ some cfg.collector_key)
        → InFile cfg.collector_key s
        → KeptIn cfg.collector_key (migrate_written b saves cfg s r)
    unfolding save_scrubbed str_eq
    migrate_written-KeptIn saves cfg s (k, false) w h =
        (InFile-Held cfg.collector_key (record s { keys = k }) h, refl)
    migrate_written-KeptIn true cfg s (k, true) w h = (w refl, refl)
    migrate_written-KeptIn false cfg s (k, true) w h =
        (InFile-Held cfg.collector_key (record s { keys = k }) h, refl)

    migrate_on_load-KeptIn :
        (saves : Bool) (cfg : Config) (s : Store K)
        → InFile cfg.collector_key s
        → KeptIn cfg.collector_key (migrate_on_load b saves cfg s)
    unfolding migrate_on_load
    migrate_on_load-KeptIn saves cfg s h =
        let kept = InFile-Held cfg.collector_key s h in
        if_both (KeptIn cfg.collector_key) b.is_file (kept, refl)
          (if_both (KeptIn cfg.collector_key) (str_eq cfg.collector_key []) (kept, refl)
            (migrate_written-KeptIn saves cfg s (write_secrets b cfg s.keys)
              (write_secrets-holds b holds lawful cfg s.keys) h))

    -- The file is marked, and the keychain has the key.
    abbrev InKeychain : Str → Store K → Type 0
    InKeychain key s =
        (c : Config) × (s.file ≡ some c)
        × (in_keychain c ≡ true)
        × (holds active_key s.keys ≡ some key)

    InKeychain-Held : (key : Str) (s : Store K) → InKeychain key s → Held b holds key s
    InKeychain-Held key s (c, e, m, h) = rw e (rw m h)

    InKeychain-get :
        (key : Str) (a : Account) (s : Store K)
        → InKeychain key s
        → InKeychain key (record s { keys = (b.get a s.keys).0 })
    InKeychain-get key a s (c, e, m, h) = (c, e, m, lawful.get-holds a active_key s.keys ∙ h)

    discard-KeptIn :
        (saves : Bool) (cfg : Config) (s : Store K)
        → InKeychain cfg.collector_key s
        → KeptIn cfg.collector_key (after_discard (save_scrubbed saves (discard_pending cfg) s))
    unfolding save_scrubbed str_eq
    discard-KeptIn true cfg s (c, e, m, h) = (h, refl)
    discard-KeptIn false cfg s h = (InKeychain-Held cfg.collector_key s h, refl)

    hydrate_answer-KeptIn :
        (saves : Bool) (cfg : Config) (s : Store K) (r : K × GetAnswer)
        → InKeychain cfg.collector_key (record s { keys = r.0 })
        → KeptIn cfg.collector_key (hydrate_answer saves cfg s r)
    hydrate_answer-KeptIn saves cfg s (k, found pending) h =
        (InKeychain-Held cfg.collector_key (record s { keys = k }) h, refl)
    hydrate_answer-KeptIn saves cfg s (k, absent) h =
        discard-KeptIn saves cfg (record s { keys = k }) h
    hydrate_answer-KeptIn saves cfg s (k, failed) h =
        discard-KeptIn saves cfg (record s { keys = k }) h

    hydrate_pending-KeptIn :
        (saves : Bool) (cfg : Config) (s : Store K)
        → InKeychain cfg.collector_key s
        → KeptIn cfg.collector_key (hydrate_pending b saves cfg s)
    unfolding hydrate_pending
    hydrate_pending-KeptIn saves cfg s h =
        hydrate_answer-KeptIn saves cfg s (b.get pending_key s.keys)
          (InKeychain-get cfg.collector_key pending_key s h)

    with_active-Kept : (key : Str) (r : Store K × Config) → KeptIn key r → Kept key (with_active r)
    with_active-Kept key (s, c) h = h

    hydrate_active-Kept :
        (key : Str) (saves : Bool) (cfg : Config) (s : Store K) (r : K × GetAnswer)
        → InKeychain key (record s { keys = r.0 })
        → ((got : Str) → r.1 ≡ found got → got ≡ key)
        → Kept key (hydrate_active b saves cfg s r)
    hydrate_active-Kept key saves cfg s (k, failed) h same =
        (InKeychain-Held key (record s { keys = k }) h, tt)
    hydrate_active-Kept key saves cfg s (k, absent) h same =
        (InKeychain-Held key (record s { keys = k }) h, tt)
    hydrate_active-Kept key saves cfg s (k, found got) h same =
        let cfg' = record cfg { collector_key = got } in
        let s' = record s { keys = k } in
        let h' : InKeychain got s' = rw (same got refl) h in
        rw (sym (same got refl)) (
          with_active-Kept got
            (if cfg.pending_key_id == 0 then (s', cfg') else hydrate_pending b saves cfg' s')
            (if_both (KeptIn got) (cfg.pending_key_id == 0) (InKeychain-Held got s' h', refl)
              (hydrate_pending-KeptIn saves cfg' s' h')))

    hydrate-Kept :
        (key : Str) (saves : Bool) (cfg : Config) (s : Store K)
        → InKeychain key s
        → Kept key (hydrate b saves cfg s)
    unfolding hydrate
    hydrate-Kept key saves cfg s h =
        hydrate_active-Kept key saves cfg s (b.get active_key s.keys)
          (InKeychain-get key active_key s h)
          (λ got e.
            let read = lawful.get-found active_key s.keys got e in let (c, f, m, held) = h in cc)

    migrated-Kept : (key : Str) (r : Store K × Config) → KeptIn key r → Kept key (migrated r)
    migrated-Kept key (s, c) h = h

    -- By whether the file is marked.
    load_marked-Kept :
        (key : Str) (saves : Bool) (s : Store K) (cfg : Config) (mark : Bool)
        → s.file ≡ some cfg
        → in_keychain cfg ≡ mark
        → HeldBy b holds mark key cfg s.keys
        → Kept key
            (if mark then hydrate b saves cfg s else migrated (migrate_on_load b saves cfg s))
    load_marked-Kept key saves s cfg true e m h = hydrate-Kept key saves cfg s (cfg, e, m, h)
    load_marked-Kept key saves s cfg false e m h = rw (sym h) (
        migrated-Kept cfg.collector_key (migrate_on_load b saves cfg s)
          (migrate_on_load-KeptIn saves cfg s (cfg, e, m, refl)))

    load_file-Kept :
        (key : Str) (saves : Bool) (s : Store K) (file : Option Config)
        → s.file ≡ file
        → HeldIn b holds key file s.keys
        → Kept key (load_file b saves s file)
    unfolding hydrate migrate_on_load
    load_file-Kept key saves s none e h = absurd h
    load_file-Kept key saves s (some cfg) e h =
        load_marked-Kept key saves s cfg (in_keychain cfg) e refl h

    -- Whatever fails, a load leaves the key it can find where it was found or moves it to the keychain,
    -- and a config that it answers has this key.
    pub load-Kept :
        (key : Str) (saves : Bool) (s : Store K) → Held b holds key s → Kept key (load b saves s)
    unfolding load
    load-Kept key saves s h = load_file-Kept key saves s s.file refl h

    abbrev IsOk : Result Error Config → Type 0
    IsOk (ok c) = Unit
    IsOk (err e) = ⊥

    Gives-Answers : (key : Str) (r : Result Error Config) → Gives key r → IsOk r → Answers key r
    Gives-Answers key (ok c) h o = h
    Gives-Answers key (err e) h o = absurd o

    IsOk-pair : (r : Store K × Config) → IsOk (with_active r).1 × IsOk (migrated r).1
    IsOk-pair (s, c) = (tt, tt)

    hydrate_active-IsOk :
        (key : Str) (saves : Bool) (cfg : Config) (s : Store K) (r : K × GetAnswer)
        → r.1 ≡ found key
        → IsOk (hydrate_active b saves cfg s r).1
    hydrate_active-IsOk key saves cfg s (k, found got) h =
        let cfg' = record cfg { collector_key = got } in
        let s' = record s { keys = k } in
        (IsOk-pair
          (if cfg.pending_key_id == 0 then (s', cfg') else hydrate_pending b saves cfg' s')).0
    hydrate_active-IsOk key saves cfg s (k, absent) h = cc
    hydrate_active-IsOk key saves cfg s (k, failed) h = cc

    load_marked-IsOk :
        (key : Str) (saves : Bool) (s : Store K) (cfg : Config) (mark : Bool)
        → IsReadable
        → HeldBy b holds mark key cfg s.keys
        → IsOk (if mark then hydrate b saves cfg s else migrated (migrate_on_load b saves cfg s)).1
    unfolding hydrate
    load_marked-IsOk key saves s cfg true readable h =
        hydrate_active-IsOk key saves cfg s (b.get active_key s.keys) (readable key s.keys h)
    load_marked-IsOk key saves s cfg false readable h =
        (IsOk-pair (migrate_on_load b saves cfg s)).1

    load_file-IsOk :
        (key : Str) (saves : Bool) (s : Store K) (file : Option Config)
        → IsReadable
        → HeldIn b holds key file s.keys
        → IsOk (load_file b saves s file).1
    unfolding hydrate migrate_on_load
    load_file-IsOk key saves s none readable h = absurd h
    load_file-IsOk key saves s (some cfg) readable h =
        load_marked-IsOk key saves s cfg (in_keychain cfg) readable h

    -- After a save that succeeded, on a store in which a load found a key, a load with a keychain that can be
    -- read answers a config with the key that was saved, whether or not the key moved to the keychain.
    pub load-save :
        (old : Str) (saves saves' : Bool) (cfg : Config) (s : Store K)
        → IsReadable
        → Held b holds old s
        → (save b saves cfg s).2 ≡ true
        → Answers cfg.collector_key (load b saves' (save b saves cfg s).0).1
    unfolding load
    load-save old saves saves' cfg s readable h done =
        let saved = (save b saves cfg s).0 in
        let held =
          Replaced-done b holds old cfg.collector_key (save b saves cfg s)
            (save-Replaced b holds lawful old saves cfg s h) done in
        Gives-Answers cfg.collector_key (load b saves' saved).1
          (load-Kept cfg.collector_key saves' saved held).1
          (load_file-IsOk cfg.collector_key saves' saved saved.file readable held)
