-- ===== src/Credstore/Saving.antt =====
-- What a save leaves, whether it succeeds or not.
use desktop_client.Base.{
  ◌≡◌, refl, Bool, true, false, Str, str_eq, Option, some, [], inl, ◌⊎◌, if_both,
}
use desktop_client.Config.{Config}
use desktop_client.Credstore.{
  Account, active_key, Backend, IsLawful, BackendStatus, file_forced, file_no_key, file_fallback,
  Store, save_scrubbed, save_plain, write_secrets, save_written, save,
}
use desktop_client.Credstore.Keeping.{
  Held, Moves, HeldIn-Moves, write_secrets-Moves, write_secrets-holds,
}

module _ {K : Type 0} (b : Backend K) (holds : Account → K → Option Str) where
  -- The key of before or the new one is held, and the new one where the save succeeded.
  abbrev pub Replaced : Str → Str → Store K × Config × Bool → Type 0
  Replaced old new (s, cfg, true) = Held b holds new s
  Replaced old new (s, cfg, false) = Held b holds old s ⊎ Held b holds new s

  pub Replaced-done :
      (old new : Str) (r : Store K × Config × Bool)
      → Replaced old new r
      → r.2 ≡ true
      → Held b holds new r.0
  Replaced-done old new (s, cfg, true) h done = h
  Replaced-done old new (s, cfg, false) h done = cc

  save_plain-Replaced :
      (old : Str) (saves : Bool) (cfg : Config) (status : BackendStatus) (s : Store K)
      → Held b holds old s ⊎ Held b holds cfg.collector_key s
      → Replaced old cfg.collector_key (save_plain saves cfg status s)
  unfolding str_eq
  save_plain-Replaced old true cfg status s h = refl
  save_plain-Replaced old false cfg status s h = h

  save_scrubbed-Replaced :
      (old : Str) (saves : Bool) (cfg : Config) (s : Store K)
      → holds active_key s.keys ≡ some cfg.collector_key
      → Held b holds old s ⊎ Held b holds cfg.collector_key s
      → Replaced old cfg.collector_key (save_scrubbed saves cfg s)
  unfolding save_scrubbed str_eq
  save_scrubbed-Replaced old true cfg s held h = held
  save_scrubbed-Replaced old false cfg s held h = h

  module _ (lawful : IsLawful b holds) where
    save_written-Replaced :
        (old : Str) (saves : Bool) (cfg : Config) (s : Store K) (r : K × Bool)
        → Moves b holds cfg.collector_key s.keys r.0
        → (r.1 ≡ true → holds active_key r.0 ≡ some cfg.collector_key)
        → Held b holds old s
        → Replaced old cfg.collector_key (save_written b saves cfg s r)
    save_written-Replaced old saves cfg s (k, true) m w h =
        save_scrubbed-Replaced old saves cfg (record s { keys = k }) (w refl)
          (HeldIn-Moves b holds old cfg.collector_key s.file s.keys k h m)
    save_written-Replaced old saves cfg s (k, false) m w h =
        save_plain-Replaced old saves cfg file_fallback (record s { keys = k })
          (HeldIn-Moves b holds old cfg.collector_key s.file s.keys k h m)

    -- From a store in which a load finds the old key: whatever fails, a save of a config leaves the old key
    -- or the config's own where a load finds it; a save that answers success leaves the config's own there.
    pub save-Replaced :
        (old : Str) (saves : Bool) (cfg : Config) (s : Store K)
        → Held b holds old s
        → Replaced old cfg.collector_key (save b saves cfg s)
    unfolding save
    save-Replaced old saves cfg s h =
        if_both (Replaced old cfg.collector_key) b.is_file
          (save_plain-Replaced old saves cfg file_forced s (inl h))
          (if_both (Replaced old cfg.collector_key) (str_eq cfg.collector_key [])
            (save_plain-Replaced old saves cfg file_no_key s (inl h))
            (save_written-Replaced old saves cfg s (write_secrets b cfg s.keys)
              (write_secrets-Moves b holds lawful cfg s.keys)
              (write_secrets-holds b holds lawful cfg s.keys) h))
