-- ===== src/Transport/Client/Download.antt =====
-- `open_blob` of transport/client.py: a response stream for a blob or a byte range of it.
use meridian_ociadapter.Prelude.{
  ℕ, Bool, true, not, List, [], ◌∷◌, String, Option, none, some, ◌==◌, ◌<>◌, starts_with,
}
use meridian_ociadapter.Effect.{
  Error, Result, ok, err, M, pure, lift, ◌>>=◌, ◌>>◌, raise_if, object_unavailable, digest_mismatch,
  range_not_satisfiable, value_error, http_error,
}
use meridian_ociadapter.Hashing.{Bytes}
use meridian_ociadapter.Transport.Models.{differs}
use meridian_ociadapter.Transport.Stream.{done, IteratorReader, Reading, iterator_reader, drain}
use meridian_ociadapter.Transport.Http.{
  Response, RegistryHttpClient, provider_code, response_error, require_safe_url,
}
use meridian_ociadapter.Transport.Client.{headers}
use meridian_ociadapter.Transport.Client.Blobs.{blob_url, or_else_text}

-- The range of a stream: none, or a start with an optional end.
pub record OpenRange : Type 0 where
  pub start : ℕ
  pub end : Option ℕ

-- `response.read()`: the whole body
abbrev read_all : Reading → Result Bytes
read_all (none, reader) = ok reader.buffer
read_all (some e, reader) = err e

module _ {W : Type 0} where
  -- `except httpx.HTTPError: raise ObjectUnavailable`
  abbrev unavailable : {A : Type 0} → Result A → M W A
  unavailable (ok a) w = (ok a, w)
  unavailable (err http_error) w = (err object_unavailable, w)
  unavailable (err e) w = (err e, w)

module _ {W : Type 0} (self : RegistryHttpClient W) where
  abbrev bytes_range : ℕ → ℕ → String
  bytes_range start end = self.texts.str_of start <> "-" <> self.texts.str_of end

  abbrev range_headers : Option OpenRange → Result (List (String × String))
  range_headers none = ok (("Accept-Encoding", "identity") ∷ [])
  range_headers (some range) = elim range.end [
    | none ↦ err value_error
    | some end ↦
        ok (
          ("Accept-Encoding", "identity") ∷ ("Range", "bytes=" <> bytes_range range.start end) ∷ [])
  ]

  -- Whether the response's `Content-Range` starts as the request asked.
  abbrev covers : Option OpenRange → Option String → Bool
  covers none returned = true
  covers (some range) returned = elim range.end [
    | none ↦ true
    | some end ↦
        starts_with (or_else_text returned "") ("bytes " <> bytes_range range.start end <> "/")
  ]

  abbrev expected_status : Option OpenRange → ℕ
  expected_status none = 200
  expected_status (some range) = 206

  -- The error for a status that was not expected, once the body is read.
  abbrev refused : Response → Result Bytes → Error
  refused response (ok content) =
      response_error response.status_code (provider_code self.codec content)
  refused response (err e) = e

  unfoldable pub accept_stream : String → Option OpenRange → Response → M W IteratorReader
  accept_stream digest range response = do
    raise_if (not (response.status_code == expected_status range))
        (refused response (read_all (drain response.body [] (iterator_reader done))))
    raise_if (differs (response.header "Docker-Content-Digest") digest) digest_mismatch
    raise_if (not (covers range (response.header "Content-Range"))) range_not_satisfiable
    pure (iterator_reader response.body)

  abbrev send_get : String → List (String × String) → M W Response
  send_get target hs w =
      let sent =
        self.http.send (record { method = "GET"; url = target; headers = hs; content = none }) w in
      unavailable sent.0 sent.1

  unfoldable pub open_blob : String → Option OpenRange → M W IteratorReader
  unfolding accept_stream
  open_blob digest range = do
    additional ← lift (range_headers range)
    hs ← lift (headers self (blob_url self digest) additional)
    response ← send_get (blob_url self digest) hs
    lift (require_safe_url self.texts self.binding response.url)
    accept_stream digest range response
