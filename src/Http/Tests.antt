-- ===== src/Http/Tests.antt =====
-- parse and create with a toy parser that takes all of the data for a body.
use melang.Base.{
  ℕ, ◌-◌, ◌+◌, ◌≡◌, refl, sym, ap, subst, ◌∙◌, true, List, [], ◌∷◌, ◌++◌, Option, none, some,
  bytes_eq, arith, if◌then◌else◌,
}
use melang.Script.{Bytes, string, given, ok}
use melang.Http.{
  request, Message, Verdict, done, more, error, Parsed, complete, incomplete, broken, Melon, buffer,
  found, content_length_name, nth,
}
use melang.Http.Parse.{
  parse_body_handler, reaches, ParseGrants, parse_process, Entries, result_build, run,
  request_result_build, result_build_body,
}
use melang.Http.Create.{typed_message, set_fields, create_body_handler, joined}
use melang.Http.RoundTrip.{all, build_all, create_all, Refills, Same, result_build-generate}
use melang.Http.Bounds.{EndsWhenDone, IsAnswer, Wrote, HasUri, parse_process-Right}

abbrev Table : Type 0
Table = List (Bytes × Bytes)

unfoldable look : Table → Bytes → Option Bytes
look [] k = none
look ((l, v) ∷ t) k = let rest = look t k in if bytes_eq k l then some v else rest

abbrev fresh : Message Table
fresh = record {
  kind = request;
  method = 0;
  version = 0;
  status = 0;
  uri = none;
  args = none;
  headers = [];
}

-- POST / with two bytes of body.
abbrev post : Message Table
post = record {
  kind = request;
  method = 1;
  version = 1;
  status = 0;
  uri = some (b'/' ∷ []);
  args = none;
  headers = (content_length_name, b'2' ∷ []) ∷ [];
}

abbrev by_verdict : Verdict → Bytes → Parsed Table
by_verdict done s = complete post s
by_verdict more s = incomplete
by_verdict error s = broken

abbrev digit : Bytes → ℕ
digit [] = 0
digit (d ∷ ds) = d - 48

abbrev toy : Melon Table
toy = record {
  new = fresh;
  field_get = look;
  field_set = λ t k v. some (t ++ (k, v) ∷ []);
  fields = λ t. t;
  status_of = λ i. i;
  parse = λ handler s. by_verdict (handler post (s ∷ [])) s;
  generate = λ handler m. ok [];
  atol = digit;
  print_length = λ n. (n + 48) ∷ [];
}

complete-done :
    (v : Verdict) (s left : Bytes) (m : Message Table)
    → by_verdict v s ≡ complete m left
    → (v ≡ done) × (m ≡ post) × (s ≡ left)
complete-done done s left m e = ground (arith, e)
complete-done more s left m e = absurd (ground (arith, e))
complete-done error s left m e = absurd (ground (arith, e))

toy-EndsWhenDone : EndsWhenDone toy
toy-EndsWhenDone s m left e =
    let (said, same, all_left) = complete-done (parse_body_handler toy post (s ∷ [])) s left m e in
    ap (λ x. parse_body_handler toy x (left ∷ [])) same
    ∙ ap (λ l. parse_body_handler toy post (l ∷ [])) (sym all_left)
    ∙ said

toy-HasUri :
    (s : Bytes) (m : Message Table) (left : Bytes)
    → toy.parse (parse_body_handler toy) s ≡ complete m left
    → HasUri toy m.kind m
toy-HasUri s m left e =
    let (said, same, all_left) = complete-done (parse_body_handler toy post (s ∷ [])) s left m e in
    subst (λ x. HasUri toy x.kind x) (sym same) (b'/' ∷ [], refl)

abbrev abc : Bytes
abc = b'a' ∷ b'b' ∷ b'c' ∷ []

abbrev grants : ParseGrants
grants = record { parser = true; build = build_all; value = true; rest = true }

parse_process-Right_example :
    IsAnswer (parse_process toy grants (given (string abc))).answer
    × Wrote toy abc (parse_process toy grants (given (string abc))).written
parse_process-Right_example = parse_process-Right toy grants abc toy-EndsWhenDone (toy-HasUri abc)

-- The body of two bytes is taken, the third is left in the string.
rest_c : (parse_process toy grants (given (string abc))).written ≡ some (b'c' ∷ [])
unfolding parse_process parse_body_handler reaches look bytes_eq result_build run
    request_result_build result_build_body nth
rest_c = refl

post-Refills : Refills toy post.headers
unfolding set_fields
post-Refills = refl

result_build-generate_example :
    (es : Entries) × (result_build toy build_all post (buffer abc) ≡ ok (es, buffer (b'c' ∷ [])))
    × (n : Message Table) × (typed_message toy all (found es) fresh ≡ ok n)
    × Same toy request post n
    × (chain : List Bytes) × (create_body_handler toy create_all (found es) n ≡ ok (n, chain))
    × (joined chain ≡ b'a' ∷ b'b' ∷ [])
unfolding look bytes_eq
result_build-generate_example =
    result_build-generate toy post (buffer abc) (buffer (b'c' ∷ [])) (b'a' ∷ b'b' ∷ [])
      (omega arith, omega arith, b'/' ∷ [], refl) post-Refills refl
