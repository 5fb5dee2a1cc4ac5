-- ===== src/Types/Cbor/Advances.antt =====
-- The loops of `canonicalize_int` move their index forward and stay within the input.
use dqcsim_rs.Common.{
  ok_or, ℕ, zero, suc, ◌+◌, ◌-◌, ◌^◌, ◌≤◌, ◌<◌, ◌≡◌, refl, List, [], ◌∷◌, ◌++◌, Option, some, none,
  Outcome, ok, and_then, and_then-eq-ok, guard-eq-ok, assert-eq-ok, arith, length, length-append,
  ◌==◌, leb, Bool, true, false, Text, say, not, take, drop, get_elem?,
}
use dqcsim_rs.Types.Cbor.{
  slice_from, get_range, at_break, entry_value, entry_pair, Entries, counted, until_break, sequence,
  chunks, chunk, Contents, contents, read_tag, string,
}
use dqcsim_rs.Types.Cbor.Consumed.{read_tag-IsTag}

-- A reader of one value reads at least a byte, and no more than there is.
abbrev pub Consumes : (List ℕ → Outcome (List ℕ × ℕ)) → Type 0
Consumes value =
    (input out : List ℕ) (n : ℕ) → value input ≡ ok (out, n) → (1 ≤ n) × (n ≤ length input)

-- A reader of one entry moves the index forward.
abbrev pub Advances : (List ℕ → ℕ → Outcome (ℕ × List ℕ)) → Type 0
Advances entry =
    (input b : List ℕ) (i j : ℕ) → entry input i ≡ ok (j, b) → (i < j) × (j ≤ length input)

length-take : (n : ℕ) (xs : List ℕ) → n ≤ length xs → length (take n xs) ≡ n
length-take zero xs h = refl
length-take (suc n) [] h = elim h [ ]
length-take (suc n) (x ∷ xs) h = omega (arith, length-take n xs (omega arith))

length-drop : (n : ℕ) (xs : List ℕ) → length (drop n xs) ≡ length xs - n
length-drop zero xs = omega arith
length-drop (suc n) [] = omega arith
length-drop (suc n) (x ∷ xs) = omega (arith, length-drop n xs)

get_elem?-lt : (xs : List ℕ) (i x : ℕ) → get_elem? xs i ≡ some x → i < length xs
get_elem?-lt [] i x e = absurd (cc e)
get_elem?-lt (y ∷ xs) zero x e = omega arith
get_elem?-lt (y ∷ xs) (suc i) x e = omega (arith, get_elem?-lt xs i x e)

pub slice_from_ok :
    (input rest : List ℕ) (i : ℕ)
    → slice_from input i ≡ ok rest
    → (i ≤ length input) × (length rest ≡ length input - i)
unfolding slice_from
slice_from_ok input rest i e = ground (arith, length-drop i input)

pub entry_value-Advances :
    (value : List ℕ → Outcome (List ℕ × ℕ)) → Consumes value → Advances (entry_value value)
unfolding entry_value
entry_value-Advances value c input b i j e =
    let (rest, s, k) = and_then-eq-ok (slice_from input i) _ e in
    let (r, v, l) = and_then-eq-ok (value rest) _ k in
    ground (arith, slice_from_ok input rest i s, c rest r.0 r.1 v)

pub entry_pair-Advances :
    (value : List ℕ → Outcome (List ℕ × ℕ)) → Consumes value → Advances (entry_pair value)
unfolding entry_pair
entry_pair-Advances value c input b i j e =
    let (r, s, k) = and_then-eq-ok (entry_value value input i) _ e in
    let (q, v, l) = and_then-eq-ok (entry_value value input r.0) _ k in
    ground (
      arith,
      entry_value-Advances value c input r.1 i r.0 s,
      entry_value-Advances value c input q.1 r.0 q.0 v,
    )

-- What a loop over entries leaves, from an index and a number of entries on.
record IsLoop (input : List ℕ) (i n : ℕ) (s : Entries) : Type 0 where
  pub within : s.index ≤ length input
  pub forward : i ≤ s.index
  pub bounded : length s.entries ≤ n + (s.index - i)

counted-IsLoop :
    (entry : List ℕ → ℕ → Outcome (ℕ × List ℕ)) (n i : ℕ) (input : List ℕ) (c : List (List ℕ))
    (s : Entries)
    → Advances entry
    → i ≤ length input
    → counted entry n input i c ≡ ok s
    → IsLoop input i (length c) s
unfolding counted
counted-IsLoop entry zero i input c s a h e = ground arith
counted-IsLoop entry (suc n) i input c s a h e =
    let (r, q, k) = and_then-eq-ok (entry input i) _ e in
    ground (
      arith,
      a input r.1 i r.0 q,
      counted-IsLoop entry n r.0 input (c ++ r.1 ∷ []) s a,
      length-append c (r.1 ∷ []),
    )

pub at_break_lt :
    (input : List ℕ) (i : ℕ) (e : Text) (b : Bool) → at_break input i e ≡ ok b → i < length input
at_break_lt input i e b h =
    let (x, q, k) = and_then-eq-ok (ok_or (get_elem? input i) e) _ h in
    go (get_elem? input i) refl q
  where
    go : {x : ℕ} (o : Option ℕ) → get_elem? input i ≡ o → ok_or o e ≡ ok x → i < length input
    go none p q = absurd (cc q)
    go (some x) p q = get_elem?-lt input i x p

until_break-IsLoop :
    (fuel : ℕ) (entry : List ℕ → ℕ → Outcome (ℕ × List ℕ)) (t : Text) (i : ℕ) (input : List ℕ)
    (c : List (List ℕ)) (s : Entries)
    → Advances entry
    → i ≤ length input
    → until_break fuel entry t input i c ≡ ok s
    → IsLoop input i (length c) s
unfolding until_break
until_break-IsLoop zero entry t i input c s a h e = absurd (cc e)
until_break-IsLoop (suc fuel) entry t i input c s a h e =
    let (b, q, k) = and_then-eq-ok (at_break input i t) _ e in
    go b q (λ j c' l m. until_break-IsLoop fuel entry t j input c' s a l m) k
  where
    go :
        (b : Bool)
        → at_break input i t ≡ ok b
        → ((j : ℕ) (c' : List (List ℕ))
            → j ≤ length input
            → until_break fuel entry t input j c' ≡ ok s
            → IsLoop input j (length c') s)
        → (elim b as (λ _. Outcome Entries) [
          | true ↦ ok (record { entries = c; index = i + 1 })
          | false ↦
              and_then (entry input i) (λ (j, b). until_break fuel entry t input j (c ++ b ∷ []))
        ])
          ≡ ok s
        → IsLoop input i (length c) s
    go true q ih k = ground (arith, at_break_lt input i t true q)
    go false q ih k =
        let (r, m, l) = and_then-eq-ok (entry input i) _ k in
        ground (arith, a input r.1 i r.0 m, ih r.0 (c ++ r.1 ∷ []), length-append c (r.1 ∷ []))

pub sequence-IsLoop :
    (fuel : ℕ) (entry : List ℕ → ℕ → Outcome (ℕ × List ℕ)) (t : Text) (input : List ℕ)
    (count : Option ℕ) (s : Entries)
    → Advances entry
    → sequence fuel entry t input count ≡ ok s
    → (s.index ≤ length input) × (length s.entries ≤ s.index)
unfolding sequence
sequence-IsLoop fuel entry t input none s a e =
    ground (arith, until_break-IsLoop fuel entry t 0 input [] s a (omega arith) e)
sequence-IsLoop fuel entry t input (some count) s a e =
    ground (arith, counted-IsLoop entry count 0 input [] s a (omega arith) e)

get_range_ok :
    (input bytes : List ℕ) (from to : ℕ)
    → get_range input from to ≡ some bytes
    → (from ≤ to) × (to ≤ length input) × (length bytes ≡ to - from)
unfolding get_range
get_range_ok input bytes from to e =
    ground (arith, length-take (to - from) (drop from input), length-drop from input)

pub ok_or_ok : {A : Type 0} (o : Option A) (t : Text) (a : A) → ok_or o t ≡ ok a → o ≡ some a
ok_or_ok none t a e = absurd (cc e)
ok_or_ok (some x) t a e = cc e

pub chunk-Advances :
    (major i : ℕ) (input c : List ℕ) (r : ℕ × List ℕ)
    → chunk major input i c ≡ ok r
    → (i < r.0) × (r.0 ≤ length input) × (length r.1 ≤ length c + (r.0 - i))
unfolding chunk
chunk-Advances major i input c r e =
    let (t, q, k) = and_then-eq-ok (read_tag input) _ e in
    let (same, k') = guard-eq-ok (not (t.major == major)) _ _ k in
    let (len, l, m) = and_then-eq-ok (ok_or t.additional _) _ k' in
    let (fits, m') = assert-eq-ok (leb (2 ^ 64) (i + t.tag_len + len)) _ _ m in
    let (bytes, b, f) =
      and_then-eq-ok (ok_or (get_range input (i + t.tag_len) (i + t.tag_len + len)) _) _ m' in
    let tag = read_tag-IsTag input t q in
    let range = get_range_ok input bytes _ _ (ok_or_ok _ _ bytes b) in
    ground (arith, tag.reads, range, length-append c bytes)

chunks-Advances :
    (fuel major i : ℕ) (input c : List ℕ) (r : Contents)
    → i ≤ length input
    → chunks fuel major input i c ≡ ok r
    → (r.input_len ≤ length input)
      × (i ≤ r.input_len)
      × (length r.content ≤ length c + (r.input_len - i))
      × (r.additional ≡ length r.content)
unfolding chunks
chunks-Advances zero major i input c r h e = absurd (cc e)
chunks-Advances (suc fuel) major i input c r h e =
    let (b, q, k) = and_then-eq-ok (at_break input i _) _ e in
    go b q (λ j c' l m. chunks-Advances fuel major j input c' r l m) k
  where
    go :
        (b : Bool)
        → at_break input i (say "invalid CBOR: incomplete chunked bytes/utf8") ≡ ok b
        → ((j : ℕ) (c' : List ℕ)
            → j ≤ length input
            → chunks fuel major input j c' ≡ ok r
            → (r.input_len ≤ length input)
              × (j ≤ r.input_len)
              × (length r.content ≤ length c' + (r.input_len - j))
              × (r.additional ≡ length r.content))
        → (elim b as (λ _. Outcome Contents) [
          | true ↦ contents c (i + 1) (length c)
          | false ↦ and_then (chunk major input i c) (λ (j, c'). chunks fuel major input j c')
        ])
          ≡ ok r
        → (r.input_len ≤ length input)
          × (i ≤ r.input_len)
          × (length r.content ≤ length c + (r.input_len - i))
          × (r.additional ≡ length r.content)
    go true q ih k = ground (arith, at_break_lt input i _ true q)
    go false q ih k =
        let (s, m, l) = and_then-eq-ok (chunk major input i c) _ k in
        ground (arith, chunk-Advances major i input c s m, ih s.0 s.1)

pub string-Advances :
    (fuel major : ℕ) (input : List ℕ) (a : Option ℕ) (r : Contents)
    → string fuel major input a ≡ ok r
    → (r.input_len ≤ length input)
      × (length r.content ≤ length input)
      × (r.additional ≡ length r.content)
unfolding string
string-Advances fuel major input none r e =
    ground (arith, chunks-Advances fuel major 0 input [] r (omega arith) e)
string-Advances fuel major input (some n) r e =
    let (bytes, b, f) = and_then-eq-ok (ok_or (get_range input 0 n) _) _ e in
    ground (arith, get_range_ok input bytes 0 n (ok_or_ok _ _ bytes b))
