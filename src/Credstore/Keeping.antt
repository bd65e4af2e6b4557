-- ===== src/Credstore/Keeping.antt =====
-- The collector key is never lost: whatever fails, it stays where a load looks for it.
use desktop_client.Base.{
  ◌≡◌, refl, ◌∙◌, Bool, true, false, Str, str_eq, str_eq_sound, Option, none, some, [], inl, inr,
  ◌⊎◌, Bool-cases,
}
use desktop_client.Config.{Config}
use desktop_client.Credstore.{
  Account, active_key, pending_key, GetAnswer, found, absent, failed, Backend, IsLawful, Store,
  in_keychain, matches, verify_written, write_verified, write_pending, write_secrets,
}

module _ {K : Type 0} (b : Backend K) (holds : Account → K → Option Str) where
  -- Where a load of this config looks for the key: in the keychain, or in the config itself.
  abbrev pub HeldBy : Bool → Str → Config → K → Type 0
  HeldBy true key c k = holds active_key k ≡ some key
  HeldBy false key c k = c.collector_key ≡ key

  abbrev pub HeldIn : Str → Option Config → K → Type 0
  HeldIn key none k = ⊥
  HeldIn key (some c) k = HeldBy (in_keychain c) key c k

  -- A load that meets no error has the key.
  abbrev pub Held : Str → Store K → Type 0
  Held key s = HeldIn key s.file s.keys

  -- The active entry is the one of before, or `new`.
  abbrev pub Moves : Str → K → K → Type 0
  Moves new k k' = (holds active_key k' ≡ holds active_key k) ⊎ (holds active_key k' ≡ some new)

  pub HeldIn-Moves :
      (key new : Str) (file : Option Config) (k k' : K)
      → HeldIn key file k
      → Moves new k k'
      → HeldIn key file k' ⊎ HeldIn new file k'
  HeldIn-Moves key new none k k' h m = inl h
  HeldIn-Moves key new (some c) k k' h m = by_mark (in_keychain c) h m
    where
      by_mark :
          (mark : Bool)
          → HeldBy mark key c k
          → Moves new k k'
          → HeldBy mark key c k' ⊎ HeldBy mark new c k'
      by_mark true h (inl same) = inl (same ∙ h)
      by_mark true h (inr moved) = inr moved
      by_mark false h m = inl h

  module _ (lawful : IsLawful b holds) where
    matches-found :
        (a : Account) (secret : Str) (k : K) (answer : GetAnswer)
        → (b.get a k).1 ≡ answer
        → matches b secret answer ≡ true
        → holds a k ≡ some secret
    matches-found a secret k (found got) e h =
        rw (← str_eq_sound got secret h) (lawful.get-found a k got e)
    matches-found a secret k absent e h = cc
    matches-found a secret k failed e h = cc

    verify_written-holds :
        (a : Account) (secret : Str) (r : K × Bool)
        → (verify_written b a secret r).1 ≡ true
        → holds a (verify_written b a secret r).0 ≡ some secret
    verify_written-holds a secret (k, false) h = cc
    verify_written-holds a secret (k, true) h =
        lawful.get-holds a a k ∙ matches-found a secret k (b.get a k).1 refl h

    verify_written-keeps :
        (a a' : Account) (secret : Str) (r : K × Bool)
        → holds a' (verify_written b a secret r).0 ≡ holds a' r.0
    verify_written-keeps a a' secret (k, false) = refl
    verify_written-keeps a a' secret (k, true) = lawful.get-holds a a' k

    write_pending-keeps :
        (cfg : Config) (r : K × Bool)
        → holds active_key (write_pending b cfg r).0 ≡ holds active_key r.0
    unfolding write_verified
    write_pending-keeps cfg (k, false) = refl
    write_pending-keeps cfg (k, true) = elim (Bool-cases (str_eq cfg.pending_key [])) [
      | inl e ↦ rw e (lawful.delete-other k)
      | inr e ↦ rw e (
          verify_written-keeps pending_key active_key cfg.pending_key
            (b.set pending_key cfg.pending_key k)
          ∙ lawful.set-other cfg.pending_key k)
    ]

    write_pending-active :
        (cfg : Config) (r : K × Bool) → (write_pending b cfg r).1 ≡ true → r.1 ≡ true
    write_pending-active cfg (k, false) h = h
    write_pending-active cfg (k, true) h = refl

    -- Afterwards the active entry is the one of before or the config's key, and the latter on success.
    pub write_secrets-Moves :
        (cfg : Config) (k : K) → Moves cfg.collector_key k (write_secrets b cfg k).0
    unfolding write_secrets write_verified
    write_secrets-Moves cfg k =
        let written = write_verified b active_key cfg.collector_key k in
        let kept =
          write_pending-keeps cfg written
          ∙ verify_written-keeps active_key active_key cfg.collector_key
              (b.set active_key cfg.collector_key k) in
        elim (lawful.set-holds active_key cfg.collector_key k) [
          | inl same ↦ inl (kept ∙ same)
          | inr moved ↦ inr (kept ∙ moved)
        ]

    pub write_secrets-holds :
        (cfg : Config) (k : K)
        → (write_secrets b cfg k).1 ≡ true
        → holds active_key (write_secrets b cfg k).0 ≡ some cfg.collector_key
    unfolding write_secrets write_verified
    write_secrets-holds cfg k h =
        let written = write_verified b active_key cfg.collector_key k in
        write_pending-keeps cfg written
        ∙ verify_written-holds active_key cfg.collector_key (b.set active_key cfg.collector_key k)
            (write_pending-active cfg written h)
