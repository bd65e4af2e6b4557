-- ===== src/Tests/Credentials.antt =====
-- The credential store's theorems on a keychain of two entries and a config that gets a new key.
use desktop_client.Base.{◌≡◌, refl, true, false, Str, lit, str_eq, Option, none, some, inr}
use desktop_client.Config.{Config}
use desktop_client.Credstore.{
  Account, active_key, pending_key, GetAnswer, found, absent, Backend, IsLawful, file_forced, Store,
  load, save, write_secrets, write_verified, save_scrubbed,
}
use desktop_client.Credstore.Saving.{Replaced, save-Replaced}
use desktop_client.Credstore.Loading.{Kept, Answers, load-Kept, load-save}
use desktop_client.Tests.Uploads.{config}

abbrev Keys : Type 0
Keys = Option Str × Option Str

abbrev held_of : Account → Keys → Option Str
held_of active_key k = k.0
held_of pending_key k = k.1

abbrev answer_of : Option Str → GetAnswer
answer_of none = absent
answer_of (some s) = found s

abbrev put : Account → Str → Keys → Keys
put active_key s k = (some s, k.1)
put pending_key s k = (k.0, some s)

abbrev drop_entry : Account → Keys → Keys
drop_entry active_key k = (none, k.1)
drop_entry pending_key k = (k.0, none)

abbrev keychain : Backend Keys
keychain = record {
  is_file = false;
  get = λ a k. (k, answer_of (held_of a k));
  set = λ a s k. (put a s k, true);
  delete = λ a k. (drop_entry a k, true);
}

answer_of_found : (o : Option Str) (s : Str) → answer_of o ≡ found s → o ≡ some s
answer_of_found none s h = cc
answer_of_found (some t) s h = cc

put_held : (a : Account) (s : Str) (k : Keys) → held_of a (put a s k) ≡ some s
put_held active_key s k = refl
put_held pending_key s k = refl

keychain-IsLawful : IsLawful keychain held_of
keychain-IsLawful = record {
  get-found = λ a k s h. answer_of_found (held_of a k) s h;
  get-holds = λ a a' k. refl;
  set-holds = λ a s k. inr (put_held a s k);
  set-other = λ s k. refl;
  delete-other = λ k. refl;
}

keychain-IsReadable :
    (key : Str) (k : Keys)
    → held_of active_key k ≡ some key
    → answer_of (held_of active_key k) ≡ found key
keychain-IsReadable key k h = rw h refl

abbrev old_store : Store Keys
old_store = record { file = some config; keys = (none, none); status = file_forced }

abbrev new_config : Config
new_config = record config { collector_key = lit "newer" }

save-Replaced_example :
    Replaced keychain held_of (lit "old") (lit "newer") (save keychain true new_config old_store)
unfolding str_eq
save-Replaced_example =
    save-Replaced keychain held_of keychain-IsLawful (lit "old") true new_config old_store refl

load-Kept_example : Kept keychain held_of (lit "old") (load keychain true old_store)
unfolding str_eq
load-Kept_example = load-Kept keychain held_of keychain-IsLawful (lit "old") true old_store refl

load-save_example :
    Answers keychain held_of
      (lit "newer")
      (load keychain true (save keychain true new_config old_store).0).1
unfolding save str_eq write_secrets write_verified save_scrubbed
load-save_example =
    load-save keychain held_of keychain-IsLawful (lit "old") true true new_config old_store
      keychain-IsReadable refl refl
