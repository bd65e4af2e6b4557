-- ===== src/Tests/Clients.antt =====
-- The client's theorems on a backend that is down, then refuses a compressed body, then takes the body.
use desktop_client.Base.{
  ℕ, zero, suc, ◌≡◌, refl, sym, ap, true, false, Str, lit, Option, none, some, List, [], ◌∷◌, drop,
  if◌then◌else◌,
}
use desktop_client.Api.Client.{
  post, Request, Answer, replied, no_reply, Exchange, Outside, Client, new_client, trim_right,
  retry_delays, do_with_retry,
}
use desktop_client.Api.Attempts.{Attempts, do_with_retry-Attempts}
use desktop_client.Api.Encoding.{Latched, do_with_retry-Latched}
use desktop_client.Api.Payloads.{IsInverse, Sent, do_with_retry-Sent}

abbrev backend : List Exchange → Request → Answer
backend [] request = no_reply
backend (x ∷ xs) request = if request.gzipped then replied 415 [] else replied 200 (lit "{}")

abbrev zip : Str → Option Str
zip p = some (0 ∷ p)

abbrev unzip : Str → Option Str
unzip z = some (drop 1 z)

abbrev outside : Outside
outside = record {
  answer = backend;
  cancelled = λ xs. false;
  parses_url = λ url. true;
  compress = zip;
  lower = λ s. s;
  trim_space = λ s. s;
  auth_fields = λ s. ([], s);
}

abbrev filled : ℕ → Str
filled zero = []
filled (suc n) = 65 ∷ filled n

abbrev large : Option Str
large = some (filled 5000)

abbrev client : Client
client = new_client (lit "https://api//") (lit "burndown") (lit "key")

slashes_trimmed : client.base_url ≡ lit "https://api"
unfolding new_client trim_right
slashes_trimmed = refl

do_with_retry-Attempts_example :
    Attempts outside
      (λ s. some s)
      post
      (lit "/ingest/v1/events")
      large
      true
      retry_delays
      client
      (do_with_retry outside (λ s. some s) post (lit "/ingest/v1/events") large true client)
do_with_retry-Attempts_example =
    do_with_retry-Attempts outside (λ s. some s) post (lit "/ingest/v1/events") large true client
      refl

do_with_retry-Latched_example :
    Latched outside
      (do_with_retry outside (λ s. some s) post (lit "/ingest/v1/events") large true client).0
unfolding new_client
do_with_retry-Latched_example =
    do_with_retry-Latched outside (λ s. some s) post (lit "/ingest/v1/events") large true client
      (refl, tt)

abbrev unzip_some : Option Str → Option Str
unzip_some none = none
unzip_some (some z) = unzip z

zip_inverse : IsInverse outside unzip
zip_inverse p z h = sym (ap unzip_some h)

do_with_retry-Sent_example :
    Sent outside unzip
      (λ s. some s)
      post
      (lit "/ingest/v1/events")
      large
      true
      client
      (do_with_retry outside (λ s. some s) post (lit "/ingest/v1/events") large true client).0
do_with_retry-Sent_example =
    do_with_retry-Sent outside unzip (λ s. some s) post (lit "/ingest/v1/events") large true client
      zip_inverse
