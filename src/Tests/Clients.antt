-- ===== src/Tests/Clients.antt =====
-- The registry client, its documents and its reader on concrete data.
use meridian_ociadapter.Prelude.{
  ℕ, zero, suc, ◌≡◌, ◌≤◌, ◌⊎◌, refl, arith, true, false, List, [], ◌∷◌, String, none, some, codes,
  strip_prefix, length, ◌=ˢ◌, if◌then◌else◌,
}
use meridian_ociadapter.Effect.{ok, bind_result, ◌>>=◌}
use meridian_ociadapter.Transport.Client.Blobs.{blob_url, get_blob_bytes}
use meridian_ociadapter.Transport.Client.Blobs.Laws.{Matches, get_blob_bytes-Matches}
use meridian_ociadapter.Transport.Client.Manifests.{manifest_url, get_manifest}
use meridian_ociadapter.Transport.Client.Manifests.Laws.{Names, get_manifest-Names}
use meridian_ociadapter.Json.{parse_json_object}
use meridian_ociadapter.Hashing.{sha256_digest}
use meridian_ociadapter.Hashing.{Bytes}
use meridian_ociadapter.Json.{Codec, Json, sort_keys}
use meridian_ociadapter.Naming.{digest_hex}
use meridian_ociadapter.Transport.Models.{
  OciDescriptor, descriptor, parse, manifest_descriptors, object_value, build_object_manifest,
}
use meridian_ociadapter.Transport.Models.Laws.{IsValidDescriptor, manifest_descriptors-build}
use meridian_ociadapter.Transport.Stream.{done, chunk, IteratorReader, read}
use meridian_ociadapter.Transport.Stream.Laws.{Reads, IsHealthy, contents, read_lem, read_whole}
use meridian_ociadapter.Transport.Http.{
  Texts, Http, Request, Response, FullResponse, RegistryHttpClient, SplitUrl, header_get,
  same_origin, origin, no_host, require_safe_url,
}
use meridian_ociadapter.Transport.Client.{Call, headers, request, request_loop, one_attempt}
use meridian_ociadapter.Transport.Client.Answers.{IsAnswer, request-IsAnswer}
use meridian_ociadapter.Transport.Client.Counts.{counted, request-count}
use meridian_ociadapter.Transport.Client.Origins.{headers-foreign, headers-own, require_safe_url-ok}
use meridian_ociadapter.Tests.Data.{
  demo_document, toy_hashing, demo_binding, demo_codec, anchor_descriptor, config_descriptor,
  payload_descriptor,
}

-- Addresses of the binding's registry, and of one other host.
abbrev split_demo : String → SplitUrl
split_demo url = record {
  scheme = "https";
  hostname = if url =ˢ "https://cdn.example" then some "cdn.example" else some "r.example";
  username = none;
  port = ok none;
}

abbrev demo_texts : Texts
demo_texts = record {
  urlsplit = λ url. ok (split_demo url);
  urljoin = λ a b. ok b;
  quote = λ v safe. v;
  copy_merge_params = λ u ps. ok u;
  copy_add_param = λ u k v. ok u;
  isdigit = λ s. false;
  int = λ s. ok 0;
  str_of = λ n. "0";
  is_in = λ a b. false;
  before_semicolon = λ s. s;
}

abbrev demo_response : ℕ → Response
demo_response status = record {
  status_code = status;
  header = λ name. none;
  url = "https://r.example/v2/";
  body = chunk (1 ∷ []) (chunk (2 ∷ []) done);
}

-- A registry that is unavailable once, and then answers. The world counts what was sent before.
abbrev flaky_http : Http ℕ
flaky_http = record { send = λ r n. (ok (demo_response (flaky_status n)), suc n); sleep = λ d n. n }
  where
    flaky_status : ℕ → ℕ
    flaky_status zero = 503
    flaky_status (suc n) = 200

abbrev demo_client : RegistryHttpClient ℕ
demo_client = record {
  binding = demo_binding;
  http = flaky_http;
  texts = demo_texts;
  hashing = toy_hashing;
  codec = demo_codec;
  max_read_attempts = 3;
}

abbrev demo_call : Call
demo_call = record {
  method = "GET";
  url = "https://r.example/v2/";
  headers = [];
  content = none;
  expected = 200 ∷ [];
  retry = true;
  maximum_response_bytes = 10;
}

abbrev demo_answer : FullResponse
demo_answer = record { status_code = 200; header = λ name. none; content = 1 ∷ 2 ∷ [] }

-- The second attempt succeeds.
answers_with : (request demo_client demo_call 0).0 ≡ ok demo_answer
unfolding request request_loop one_attempt meridian_ociadapter.Transport.Client.try_send headers
    same_origin origin require_safe_url meridian_ociadapter.Transport.Http.bounded_body ◌>>=◌
answers_with = refl

request-IsAnswer_example : IsAnswer demo_call demo_answer
request-IsAnswer_example = request-IsAnswer demo_client demo_call 0 demo_answer answers_with

request-count_example : (request (counted demo_client) demo_call (0, 0)).1.1 ≤ 3
request-count_example = request-count demo_client demo_call 0 0

abbrev demo_body : Bytes
demo_body = 1 ∷ 2 ∷ []

abbrev demo_blob : OciDescriptor
demo_blob = record {
  media_type = "text/plain";
  digest = sha256_digest toy_hashing demo_body;
  size = 2;
}

downloads : (get_blob_bytes demo_client demo_blob 10 0).0 ≡ ok demo_body
unfolding get_blob_bytes request request_loop one_attempt
    meridian_ociadapter.Transport.Client.try_send headers same_origin origin require_safe_url
    meridian_ociadapter.Transport.Http.bounded_body ◌>>=◌ sha256_digest blob_url
downloads = refl

get_blob_bytes-Matches_example : Matches (sha256_digest toy_hashing) demo_blob 10 demo_body
get_blob_bytes-Matches_example =
    get_blob_bytes-Matches demo_client demo_blob 10 0 demo_body downloads

fetches : (get_manifest demo_client "m-l1-x" 0).0 ≡ ok (demo_document demo_body)
unfolding get_manifest request request_loop one_attempt
    meridian_ociadapter.Transport.Client.try_send headers same_origin origin require_safe_url
    meridian_ociadapter.Transport.Http.bounded_body ◌>>=◌ sha256_digest manifest_url parse
    parse_json_object
fetches = refl

get_manifest-Names_example :
    Names (sha256_digest toy_hashing) demo_codec 5000 "m-l1-x" (demo_document demo_body)
get_manifest-Names_example =
    get_manifest-Names demo_client "m-l1-x" 0 (demo_document demo_body) fetches

abbrev own_url : String
own_url = "https://r.example/v2/"

abbrev base_headers : List (String × String)
base_headers = ("User-Agent", "meridian-storage-oci/1.0.0") ∷ ("Accept", "application/json") ∷ []

foreign : headers demo_client "https://cdn.example" [] ≡ ok base_headers
unfolding headers same_origin origin
foreign = refl

other_origin : same_origin demo_texts "https://cdn.example" "https://r.example" ≡ ok false
unfolding same_origin origin
other_origin = refl

headers-foreign_example : header_get "Authorization" base_headers ≡ none
headers-foreign_example =
    headers-foreign demo_client "https://cdn.example" [] base_headers refl other_origin foreign

abbrev own_headers : List (String × String)
own_headers =
    ("User-Agent", "meridian-storage-oci/1.0.0")
    ∷ ("Accept", "application/json")
    ∷ ("Authorization", "Bearer t")
    ∷ []

own : headers demo_client own_url [] ≡ ok own_headers
unfolding headers same_origin origin
own = refl

own_origin : same_origin demo_texts own_url "https://r.example" ≡ ok true
unfolding same_origin origin
own_origin = refl

headers-own_example : ok (some "Bearer t") ≡ ok (header_get "Authorization" own_headers)
headers-own_example = headers-own demo_client own_url [] own_headers refl own_origin own

safe : require_safe_url demo_texts demo_binding own_url ≡ ok tt
unfolding require_safe_url
safe = refl

require_safe_url-ok_example :
    (no_host (some "r.example") ≡ false)
    × ((split_demo own_url).username ≡ none)
    × (((split_demo own_url).scheme ≡ "https")
        ⊎ (((split_demo own_url).scheme ≡ "http")
            × (demo_binding.allow_insecure_http ≡ true)
            × (same_origin demo_texts own_url "https://r.example" ≡ ok true)))
require_safe_url-ok_example = require_safe_url-ok demo_client own_url (split_demo own_url) refl safe

abbrev demo_reader : IteratorReader
demo_reader = record {
  chunks = chunk (1 ∷ 2 ∷ []) (chunk (3 ∷ []) done);
  buffer = 0 ∷ [];
  ended = false;
  closed = false;
}

demo_reader-IsHealthy : IsHealthy demo_reader
demo_reader-IsHealthy = record { ends = tt; opened = refl; exhausted = λ e. cc }

read_lem_example : Reads 2 (0 ∷ 1 ∷ 2 ∷ 3 ∷ []) (read (some 2) demo_reader)
read_lem_example = read_lem 1 demo_reader demo_reader-IsHealthy

read_whole_example :
    ((read none demo_reader).0 ≡ ok (0 ∷ 1 ∷ 2 ∷ 3 ∷ []))
    × (contents (read none demo_reader).1 ≡ [])
    × IsHealthy (read none demo_reader).1
read_whole_example = read_whole demo_reader demo_reader-IsHealthy

-- A codec for one manifest.
abbrev manifest_json : Codec
manifest_json = record {
  dumps = λ v. 9 ∷ [];
  loads = λ b. ok (
      sort_keys (
        object_value anchor_descriptor config_descriptor payload_descriptor "h" "now" "immutable"));
}

anchor_valid : IsValidDescriptor anchor_descriptor
unfolding descriptor digest_hex codes strip_prefix meridian_ociadapter.Hashing.sha256_digest
anchor_valid = refl

config_valid : IsValidDescriptor config_descriptor
unfolding descriptor digest_hex codes strip_prefix meridian_ociadapter.Hashing.sha256_digest
config_valid = refl

payload_valid : IsValidDescriptor payload_descriptor
unfolding descriptor digest_hex codes strip_prefix meridian_ociadapter.Hashing.sha256_digest
payload_valid = refl

demo_manifest_fits :
    length (
      build_object_manifest manifest_json anchor_descriptor config_descriptor payload_descriptor "h"
        "now" "immutable")
    ≤ 10
unfolding build_object_manifest meridian_ociadapter.Json.canonical_json
demo_manifest_fits = omega arith

manifest_descriptors-build_example :
    bind_result
      (parse toy_hashing manifest_json
        (build_object_manifest manifest_json anchor_descriptor config_descriptor payload_descriptor
          "h" "now" "immutable")
        none
        10)
      manifest_descriptors
    ≡ ok (config_descriptor, payload_descriptor, anchor_descriptor)
manifest_descriptors-build_example =
    manifest_descriptors-build toy_hashing manifest_json anchor_descriptor config_descriptor
      payload_descriptor "h" "now" "immutable" 10 anchor_valid config_valid payload_valid refl refl
      refl demo_manifest_fits
