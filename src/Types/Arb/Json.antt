-- ===== src/Types/Arb/Json.antt =====
-- The texts of JSON objects, as far as their ends show it: nested objects, and strings with escapes. What
-- stands between those (names, numbers, arrays) may be any characters but braces and quotes.
use mathlib.Core.List.{append_assoc, append-nil}
use dqcsim_rs.Common.{
  ℕ, Bool, ◌+◌, ◌-◌, ◌≤◌, ◌≡◌, ◌≢◌, refl, sym, ◌∙◌, ap, false, ◌==◌, if◌then◌else◌, List, [], ◌∷◌,
  ◌++◌, All, Outcome, ok, and_then, Text, ◌⊎◌, inl, arith,
}
use dqcsim_rs.Types.Arb.Scan.{
  object, string, unicode, after_unicode, scan_json, transcode, scan_json_arg,
}

-- A character of a string: one that stands for itself, an escaped one, or four digits behind `\u`.
pub data StringPart : Type 0 where
  itself escaped : ℕ → StringPart
  digits : ℕ → ℕ → ℕ → ℕ → StringPart

abbrev pub IsStringPart : StringPart → Type 0
IsStringPart (itself c) = (c ≢ b'"') × (c ≢ 0x5C)
IsStringPart (escaped c) = c ≢ b'u'
IsStringPart (digits a b c d) = Unit

abbrev pub part_text : StringPart → List ℕ
part_text (itself c) = c ∷ []
part_text (escaped c) = 0x5C ∷ c ∷ []
part_text (digits a b c d) = 0x5C ∷ b'u' ∷ a ∷ b ∷ c ∷ d ∷ []

abbrev pub string_text : List StringPart → List ℕ
string_text [] = b'"' ∷ []
string_text (p ∷ ps) = part_text p ++ string_text ps

-- What stands between the braces of an object.
pub data Inside : Type 0 where
  nothing : Inside
  other : ℕ → Inside → Inside
  quoted : List StringPart → Inside → Inside
  braces : Inside → Inside → Inside

abbrev pub IsInside : Inside → Type 0
IsInside nothing = Unit
IsInside (other c o) = (c ≢ b'{') × (c ≢ b'}') × (c ≢ b'"') × IsInside o
IsInside (quoted ps o) = All IsStringPart ps × IsInside o
IsInside (braces n o) = IsInside n × IsInside o

abbrev pub inside_text : Inside → List ℕ
inside_text nothing = []
inside_text (other c o) = c ∷ inside_text o
inside_text (quoted ps o) = b'"' ∷ (string_text ps ++ inside_text o)
inside_text (braces n o) = b'{' ∷ (inside_text n ++ (b'}' ∷ inside_text o))

abbrev pub object_text : Inside → List ℕ
object_text o = b'{' ∷ (inside_text o ++ b'}' ∷ [])

-- One character was scanned.
push : (json xs : List ℕ) (c : ℕ) → (json ++ c ∷ []) ++ xs ≡ json ++ (c ∷ xs)
push json xs c = append_assoc json (c ∷ []) xs

scan_part :
    (p : StringPart) (depth : ℕ) (rest json : List ℕ)
    → IsStringPart p
    → scan_json string depth (part_text p ++ rest) json
      ≡ scan_json string depth rest (json ++ part_text p)
unfolding scan_json after_unicode
scan_part (itself c) depth rest json h =
    let q : (c == b'"') ≡ false = ground arith in
    let b : (c == 0x5C) ≡ false = ground arith in rw (q, b)
scan_part (escaped c) depth rest json h =
    let u : (c == b'u') ≡ false = ground arith in
    let scanned = (json ++ 0x5C ∷ []) ++ c ∷ [] in
    ap (λ (it : Bool). scan_json (if it then unicode 3 else string) depth rest scanned) u
    ∙ ap (scan_json string depth rest) (push json (c ∷ []) 0x5C)
scan_part (digits a b c d) depth rest json h = ap (scan_json string depth rest) (
    push ((((json ++ 0x5C ∷ []) ++ b'u' ∷ []) ++ a ∷ []) ++ b ∷ []) (d ∷ []) c
    ∙ push (((json ++ 0x5C ∷ []) ++ b'u' ∷ []) ++ a ∷ []) (c ∷ d ∷ []) b
    ∙ push ((json ++ 0x5C ∷ []) ++ b'u' ∷ []) (b ∷ c ∷ d ∷ []) a
    ∙ push (json ++ 0x5C ∷ []) (a ∷ b ∷ c ∷ d ∷ []) b'u'
    ∙ push json (b'u' ∷ a ∷ b ∷ c ∷ d ∷ []) 0x5C)

scan_string :
    (ps : List StringPart) (depth : ℕ) (rest json : List ℕ)
    → All IsStringPart ps
    → scan_json string depth (string_text ps ++ rest) json
      ≡ scan_json object depth rest (json ++ string_text ps)
unfolding scan_json
scan_string [] depth rest json h = refl
scan_string (p ∷ ps) depth rest json h =
    ap (λ (it : List ℕ). scan_json string depth it json)
      (append_assoc (part_text p) (string_text ps) rest)
    ∙ scan_part p depth (string_text ps ++ rest) json h.0
    ∙ scan_string ps depth rest (json ++ part_text p) h.1
    ∙ ap (scan_json object depth rest) (append_assoc json (part_text p) (string_text ps))

-- Inside an object the scanner keeps its depth.
scan_inside :
    (o : Inside) (depth : ℕ) (rest json : List ℕ)
    → 1 ≤ depth
    → IsInside o
    → scan_json object depth (inside_text o ++ rest) json
      ≡ scan_json object depth rest (json ++ inside_text o)
unfolding scan_json
scan_inside nothing depth rest json l h = ap (scan_json object depth rest) (sym (append-nil json))
scan_inside (other c o) depth rest json l h =
    let a : (c == b'{') ≡ false = ground arith in
    let b : (c == b'}') ≡ false = ground arith in
    let q : (c == b'"') ≡ false = ground arith in
    rw (a, b, q)
      (scan_inside o depth rest (json ++ c ∷ []) l h.3
        ∙ ap (scan_json object depth rest) (push json (inside_text o) c))
scan_inside (quoted ps o) depth rest json l h =
    ap (λ (it : List ℕ). scan_json string depth it (json ++ b'"' ∷ []))
      (append_assoc (string_text ps) (inside_text o) rest)
    ∙ scan_string ps depth (inside_text o ++ rest) (json ++ b'"' ∷ []) h.0
    ∙ scan_inside o depth rest ((json ++ b'"' ∷ []) ++ string_text ps) l h.1
    ∙ ap (scan_json object depth rest) (
        append_assoc (json ++ b'"' ∷ []) (string_text ps) (inside_text o)
        ∙ push json (string_text ps ++ inside_text o) b'"')
scan_inside (braces n o) depth rest json l h =
    let more : (depth + 1 - 1 == 0) ≡ false = ground arith in
    let back : depth + 1 - 1 ≡ depth = omega arith in
    let opened = json ++ b'{' ∷ [] in
    ap (λ (it : List ℕ). scan_json object (depth + 1) it opened)
      (append_assoc (inside_text n) (b'}' ∷ inside_text o) rest)
    ∙ scan_inside n (depth + 1) (b'}' ∷ (inside_text o ++ rest)) opened (omega arith) h.0
    ∙ closing (depth + 1) (inside_text o ++ rest) (opened ++ inside_text n) more
    ∙ ap
        (λ (d : ℕ).
          scan_json object d (inside_text o ++ rest) ((opened ++ inside_text n) ++ b'}' ∷ []))
        back
    ∙ scan_inside o depth rest ((opened ++ inside_text n) ++ b'}' ∷ []) l h.1
    ∙ ap (scan_json object depth rest) (
        push (opened ++ inside_text n) (inside_text o) b'}'
        ∙ append_assoc opened (inside_text n) (b'}' ∷ inside_text o)
        ∙ push json (inside_text n ++ (b'}' ∷ inside_text o)) b'{')
  where
    closing :
        (d : ℕ) (it json : List ℕ)
        → (d - 1 == 0) ≡ false
        → scan_json object d (b'}' ∷ it) json ≡ scan_json object (d - 1) it (json ++ b'}' ∷ [])
    closing d it json e = rw e

-- The scanner takes the whole object, and nothing behind it.
scan_object :
    (o : Inside) (more : List ℕ)
    → IsInside o
    → scan_json object 1 (inside_text o ++ (b'}' ∷ more)) (b'{' ∷ []) ≡ ok (object_text o, more)
unfolding scan_json
scan_object o more h = scan_inside o 1 (b'}' ∷ more) (b'{' ∷ []) (omega arith) h

pub scan_json_arg-object_text :
    (json_to_cbor : List ℕ → List ℕ ⊎ Text) (o : Inside) (more cbor : List ℕ)
    → IsInside o
    → json_to_cbor (object_text o) ≡ inl cbor
    → scan_json_arg json_to_cbor (object_text o ++ more) ≡ ok (cbor, more)
unfolding scan_json_arg transcode
scan_json_arg-object_text json_to_cbor o more cbor h made =
    ap
      (λ (r : Outcome (List ℕ × List ℕ)).
        and_then r λ p. and_then (transcode json_to_cbor p.0) λ q. ok (q, p.1))
      (ap (λ (it : List ℕ). scan_json object 1 it (b'{' ∷ []))
          (append_assoc (inside_text o) (b'}' ∷ []) more)
        ∙ scan_object o more h)
    ∙ rw (made, and_then, transcode)
