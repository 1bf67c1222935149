-- ===== src/Http/RoundTrip.antt =====
-- The array that parse makes of a message gives create the same message and body again.
use Prim.Native.String.{String}
use mathlib.Core.List.{append-nil}
use melang.Base.{
  ℕ, zero, suc, ◌<◌, ◌≡◌, refl, sym, ap, ◌∙◌, Bool, true, List, [], ◌∷◌, Option, none, some, map,
  bytes_eq, arith,
}
use melang.Script.{Bytes, ok}
use melang.Http.{
  Kind, request, response, unknown, Message, Source, Melon, Entry, number, chars, elements, found,
  content_length_name, request_name, response_name, methods, versions, nth, index_of,
}
use melang.Http.Parse.{
  Entries, pair, or_empty, BuildGrants, body_of, result_build_body, run, request_result_build,
  response_result_build, result_build, build_of,
}
use melang.Http.Create.{
  CreateGrants, set_fields, generate_request_method, generate_version, generate_request_uri,
  generate_request_args, generate_headers, generate_response_code, request_message,
  response_message, typed_message, create_body_handler, joined,
}

method-index :
    (i : ℕ) → i < 8 → (s : Bytes) × (nth methods i ≡ some s) × (index_of methods s 0 ≡ some i)
unfolding nth index_of bytes_eq
method-index zero h = (_, refl, refl)
method-index (suc zero) h = (_, refl, refl)
method-index (suc (suc zero)) h = (_, refl, refl)
method-index (suc (suc (suc zero))) h = (_, refl, refl)
method-index (suc (suc (suc (suc zero)))) h = (_, refl, refl)
method-index (suc (suc (suc (suc (suc zero))))) h = (_, refl, refl)
method-index (suc (suc (suc (suc (suc (suc zero)))))) h = (_, refl, refl)
method-index (suc (suc (suc (suc (suc (suc (suc zero))))))) h = (_, refl, refl)
method-index (suc (suc (suc (suc (suc (suc (suc (suc i)))))))) h = absurd (omega (arith, h))

pub version-index :
    (i : ℕ) → i < 2 → (s : Bytes) × (nth versions i ≡ some s) × (index_of versions s 0 ≡ some i)
unfolding nth index_of bytes_eq
version-index zero h = (_, refl, refl)
version-index (suc zero) h = (_, refl, refl)
version-index (suc (suc i)) h = absurd (omega (arith, h))

abbrev pub all : String → Bool
all k = true

abbrev pub build_all : BuildGrants
build_all = record { array = true; elem = all }

abbrev pub create_all : CreateGrants
create_all = record { elem = all; body = true; str = true }

module _ {H : Type 0} (melon : Melon H) where
  -- Setting the fields of a table in a new one makes the same table.
  abbrev pub Refills : H → Type 0
  Refills h = set_fields melon (map pair (melon.fields h)) melon.new.headers ≡ ok h

  -- A message as Melon parses it: the start line has a known method and version.
  abbrev pub IsStarted : Kind → Message H → Type 0
  IsStarted request m = (m.method < 8) × (m.version < 2) × (u : Bytes) × (m.uri ≡ some u)
  IsStarted response m = (m.version < 2) × (melon.status_of m.status ≡ m.status)
  IsStarted unknown m = ⊥

  -- The same message, where args that are NULL became the empty string.
  abbrev pub Same : Kind → Message H → Message H → Type 0
  Same request m n =
      (n.kind ≡ request)
      × (n.method ≡ m.method)
      × (n.version ≡ m.version)
      × (n.uri ≡ m.uri)
      × (n.args ≡ some (or_empty m.args))
      × (n.headers ≡ m.headers)
  Same response m n =
      (n.kind ≡ response)
      × (n.version ≡ m.version)
      × (n.status ≡ m.status)
      × (n.headers ≡ m.headers)
  Same unknown m n = ⊥

  request-Same :
      (m : Message H) (from left : Source) (body : Bytes)
      → IsStarted request m
      → Refills m.headers
      → body_of melon (melon.field_get m.headers content_length_name) from ≡ ok (body, left)
      → (es : Entries) × (request_result_build melon all m from ≡ ok (es, left))
        × (found es "body" ≡ chars body)
        × (n : Message H) × (typed_message melon all (found es) melon.new ≡ ok n)
        × Same request m n
  unfolding run request_result_build result_build_body typed_message request_message found bytes_eq
      generate_request_method generate_version generate_request_uri generate_request_args
      generate_headers
  request-Same m from left body (im, iv, u, eu) refills cut =
      let (s, names, index) = method-index m.method im in
      let (t, names2, index2) = version-index m.version iv in
      let es : Entries =
        ("type", chars request_name)
        ∷ ("method", chars s)
        ∷ ("version", chars t)
        ∷ ("uri", chars u)
        ∷ ("args", chars (or_empty m.args))
        ∷ ("headers", elements (map pair (melon.fields m.headers)))
        ∷ ("body", chars body)
        ∷ [] in
      let n : Message H = record melon.new {
        kind = request;
        method = m.method;
        version = m.version;
        uri = some u;
        args = some (or_empty m.args);
        headers = m.headers;
      } in
      (
        es,
        rw (names, names2, eu, cut) refl,
        refl,
        n,
        rw (index, index2, refills) refl,
        (refl, refl, refl, sym eu, refl, refl),
      )

  response-Same :
      (m : Message H) (from left : Source) (body : Bytes)
      → IsStarted response m
      → Refills m.headers
      → body_of melon (melon.field_get m.headers content_length_name) from ≡ ok (body, left)
      → (es : Entries) × (response_result_build melon all m from ≡ ok (es, left))
        × (found es "body" ≡ chars body)
        × (n : Message H) × (typed_message melon all (found es) melon.new ≡ ok n)
        × Same response m n
  unfolding run response_result_build result_build_body typed_message response_message found
      bytes_eq generate_response_code generate_version generate_headers
  response-Same m from left body (iv, known) refills cut =
      let (t, names2, index2) = version-index m.version iv in
      let es : Entries =
        ("type", chars response_name)
        ∷ ("version", chars t)
        ∷ ("code", number m.status)
        ∷ ("headers", elements (map pair (melon.fields m.headers)))
        ∷ ("body", chars body)
        ∷ [] in
      let n : Message H = record melon.new {
        kind = response;
        version = m.version;
        status = melon.status_of m.status;
        headers = m.headers;
      } in
      (es, rw (names2, cut) refl, refl, n, rw (index2, refills) refl, (refl, refl, known, refl))

  either-Same :
      (k : Kind) (m : Message H) (from left : Source) (body : Bytes)
      → m.kind ≡ k
      → IsStarted k m
      → Refills m.headers
      → body_of melon (melon.field_get m.headers content_length_name) from ≡ ok (body, left)
      → (es : Entries) × (result_build melon build_all m from ≡ ok (es, left))
        × (found es "body" ≡ chars body)
        × (n : Message H) × (typed_message melon all (found es) melon.new ≡ ok n)
        × Same k m n
  unfolding result_build
  either-Same request m from left body e started refills cut =
      let (es, built, at, n, made, same) = request-Same m from left body started refills cut in
      (es, ap (λ k. build_of melon k build_all m from) e ∙ built, at, n, made, same)
  either-Same response m from left body e started refills cut =
      let (es, built, at, n, made, same) = response-Same m from left body started refills cut in
      (es, ap (λ k. build_of melon k build_all m from) e ∙ built, at, n, made, same)
  either-Same unknown m from left body e started refills cut = absurd started

  -- The header of a message with a body has its length.
  length-there :
      (v : Option Bytes) (from left : Source) (b : ℕ) (bs : Bytes)
      → body_of melon v from ≡ ok (b ∷ bs, left)
      → (w : Bytes) × (v ≡ some w)
  length-there none from left b bs h = absurd (ground (arith, h))
  length-there (some w) from left b bs h = (w, refl)

  create_body_handler-body :
      (arr : String → Entry) (m n : Message H) (from left : Source) (body : Bytes)
      → body_of melon (melon.field_get m.headers content_length_name) from ≡ ok (body, left)
      → n.headers ≡ m.headers
      → arr "body" ≡ chars body
      → (chain : List Bytes) × (create_body_handler melon create_all arr n ≡ ok (n, chain))
        × (joined chain ≡ body)
  unfolding create_body_handler joined
  create_body_handler-body arr m n from left [] cut same at = ([], rw at refl, refl)
  create_body_handler-body arr m n from left (b ∷ bs) cut same at =
      let (w, there) =
        length-there (melon.field_get m.headers content_length_name) from left b bs cut in
      ((b ∷ bs) ∷ [], rw (at, same, there) refl, append-nil (b ∷ bs))

  Same-headers : (k : Kind) (m n : Message H) → Same k m n → n.headers ≡ m.headers
  Same-headers request m n (_, _, _, _, _, h) = h
  Same-headers response m n (_, _, _, h) = h
  Same-headers unknown m n same = absurd same

  -- Where all memory is granted and Melon's table of the header fields is made of its fields again: of
  -- a request with a known method and version and a uri that is not NULL, or of a response with a
  -- known version and a status that Melon makes of its own number again, each with a body that has the
  -- length in its header, parse builds an array from which create makes a message of the same kind,
  -- method, version, uri or status and headers, args that are NULL as the empty string, and the same
  -- body.
  pub result_build-generate :
      (m : Message H) (from left : Source) (body : Bytes)
      → IsStarted m.kind m
      → Refills m.headers
      → body_of melon (melon.field_get m.headers content_length_name) from ≡ ok (body, left)
      → (es : Entries) × (result_build melon build_all m from ≡ ok (es, left))
        × (n : Message H) × (typed_message melon all (found es) melon.new ≡ ok n)
        × Same m.kind m n
        × (chain : List Bytes) × (create_body_handler melon create_all (found es) n ≡ ok (n, chain))
        × (joined chain ≡ body)
  result_build-generate m from left body started refills cut =
      let (es, built, at, n, made, same) =
        either-Same m.kind m from left body refl started refills cut in
      let (chain, handed, whole) =
        create_body_handler-body (found es) m n from left body cut (Same-headers m.kind m n same)
          at in
      (es, built, n, made, same, chain, handed, whole)
