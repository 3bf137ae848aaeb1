-- ===== src/Digest/Framing.antt =====
-- The reading of the framed bytes of planrace/models_v2.py.
use native.Mathlib.Nat.{pow-suc}
use planrace_subnet.Prelude.{
  ℕ, zero, suc, ◌/◌, ◌%◌, ◌^◌, ◌<◌, ◌≡◌, refl, List, [], ◌∷◌, ◌++◌, ok, length, length-append,
  append-injective, arith, leb, ok-injective, ◌∙◌, sym, inl, inr, Bool-cases, ◌||◌,
}
use planrace_subnet.Digest.{to_bytes, frame}

length-to_bytes : (k n : ℕ) → length (to_bytes k n) ≡ k
unfolding to_bytes
length-to_bytes zero n = refl
length-to_bytes (suc k) n =
    omega (arith, length-to_bytes k (n / 256), length-append (to_bytes k (n / 256)) (n % 256 ∷ []))

to_bytes-injective : (k m n : ℕ) → m < 256 ^ k → n < 256 ^ k → to_bytes k m ≡ to_bytes k n → m ≡ n
unfolding to_bytes
to_bytes-injective zero m n hm hn e = omega arith
to_bytes-injective (suc k) m n hm hn e =
    let parts =
      append-injective (to_bytes k (m / 256)) (to_bytes k (n / 256)) (m % 256 ∷ []) (n % 256 ∷ [])
        (length-to_bytes k (m / 256) ∙ sym (length-to_bytes k (n / 256))) e in
    let low : m % 256 ≡ n % 256 = ground arith in
    let high : m / 256 ≡ n / 256 =
      to_bytes-injective k (m / 256) (n / 256) (omega (arith, pow-suc 256 k))
        (omega (arith, pow-suc 256 k)) parts.0 in
    omega arith

frame_lem :
    (prefix payload framed : List ℕ)
    → frame prefix payload ≡ ok framed
    → (length prefix < 256 ^ 2)
      × (length payload < 256 ^ 8)
      × (framed
          ≡ to_bytes 2 (length prefix) ++ (prefix ++ (to_bytes 8 (length payload) ++ payload)))
unfolding frame
frame_lem prefix payload framed h =
    elim (Bool-cases (leb (256 ^ 2) (length prefix) || leb (256 ^ 8) (length payload))) [
      | inl long ↦ absurd (ground arith)
      | inr fits ↦ (ground arith, ground arith, sym (ok-injective (rw fits at h)))
    ]

-- Two payloads, under any two domains, that are framed to the same bytes are the same payload
-- under the same domain: no framed text can be read in two ways.
pub frame-injective :
    (prefix payload prefix' payload' framed : List ℕ)
    → frame prefix payload ≡ ok framed
    → frame prefix' payload' ≡ ok framed
    → (prefix ≡ prefix') × (payload ≡ payload')
frame-injective p d p' d' framed h h' =
    let (lp, ld, e) = frame_lem p d framed h in
    let (lp', ld', e') = frame_lem p' d' framed h' in
    let outer =
      append-injective (to_bytes 2 (length p)) (to_bytes 2 (length p')) _ _
        (length-to_bytes 2 (length p) ∙ sym (length-to_bytes 2 (length p'))) (sym e ∙ e') in
    let same = to_bytes-injective 2 (length p) (length p') lp lp' outer.0 in
    let inner = append-injective p p' _ _ same outer.1 in
    let tail =
      append-injective (to_bytes 8 (length d)) (to_bytes 8 (length d')) _ _
        (length-to_bytes 8 (length d) ∙ sym (length-to_bytes 8 (length d'))) inner.1 in
    (inner.0, tail.1)
