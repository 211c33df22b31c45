-- ===== src/Rng/Fill.antt =====
-- The fills of src/utils/xoroshiro_64_star.hpp write the stream of batches, and nothing else.
use native.Mathlib.Decide.{dec_le, ℕ_discrete}
use native.Mathlib.Nat.{
  div-add-mod, div-add-mod', div-le_self, mod-lt, mul-add-mod_self_right, mod-eq_of_lt, mod_self,
  mul-mod_left,
}
use mathlib.Core.List.{append_assoc, append-nil}
use benchmark_fun.Common.{
  ℕ, zero, suc, ◌+◌, ◌-◌, ◌*◌, ◌/◌, ◌%◌, ◌≤◌, ◌<◌, ◌≡◌, ◌≢◌, refl, sym, ap, ap₂, ◌∙◌, take-length,
  some, List, [], ◌∷◌, ◌++◌, length, take, ◌==◌, if◌then◌else◌, arith, length-append, ltb_pos,
  ltb_neg, eq_pos, eq_neg, leb, leb_pos, leb_neg,
}
use benchmark_fun.Rng.Traits.{InstructionSetTraits}
use benchmark_fun.Rng.Xoroshiro.{
  XoroshiroRng, store, fill_batches, fill_aligned, fill_partial_aligned,
}
use benchmark_fun.Rng.Store.{store-append, store-nil}

module _ {Float : Type 0} (traits : InstructionSetTraits Float) {A : Type 0}
    (get_batch : XoroshiroRng → List A × XoroshiroRng)
    (whole : (rng : XoroshiroRng) → length (get_batch rng).0 ≡ traits.bytes / 4) where
  open traits use {bytes, bytes_pos, bytes_whole}

  -- The generators after `k` batches, and the words of these batches.
  abbrev pub after : ℕ → XoroshiroRng → XoroshiroRng
  after zero rng = rng
  after (suc k) rng = after k (get_batch rng).1

  abbrev pub stream : ℕ → XoroshiroRng → List A
  stream zero rng = []
  stream (suc k) rng = (get_batch rng).0 ++ stream k (get_batch rng).1

  loop_lem :
      (fuel k dst aligned_end : ℕ) (mem : ℕ → A) (rng : XoroshiroRng)
      → k < fuel
      → aligned_end ≡ dst + k * bytes
      → fill_batches traits get_batch fuel dst aligned_end mem rng
        ≡ some (aligned_end, store mem dst (stream k rng), after k rng)
  unfolding fill_batches
  loop_lem zero k dst aligned_end mem rng h e = absurd (omega arith)
  loop_lem (suc fuel) zero dst aligned_end mem rng h e =
      let same : aligned_end ≡ dst = omega (arith, e) in
      rw (same, ltb_neg {a = dst} {b = dst} (omega arith))
        (ap (λ m. some (dst, m, rng)) (sym (store-nil mem dst)))
  loop_lem (suc fuel) (suc k) dst aligned_end mem rng h e =
      let (words, rng') = get_batch rng in
      let step : dst + bytes ≡ dst + 4 * length words = omega (arith, whole rng, bytes_whole) in
      let rest =
        loop_lem fuel k (dst + bytes) aligned_end (store mem dst words) rng' (omega arith)
          (omega (arith, e)) in
      rw (ltb_pos {a = dst} {b = aligned_end} (omega (arith, e, bytes_pos))) (
        rest
        ∙ ap (λ m. some (aligned_end, m, after k rng'))
            (ap (λ d. store (store mem dst words) d (stream k rng')) step
              ∙ store-append mem dst words (stream k rng')))

  -- How many batches hold `n` words.
  abbrev pub rounds : ℕ → ℕ
  rounds n = if n % (bytes / 4) == 0 then n / (bytes / 4) else suc (n / (bytes / 4))

  length-stream : (k : ℕ) (rng : XoroshiroRng) → length (stream k rng) ≡ k * (bytes / 4)
  length-stream zero rng = omega arith
  length-stream (suc k) rng = omega (
    arith,
    length-append (get_batch rng).0 (stream k (get_batch rng).1),
    whole rng,
    length-stream k (get_batch rng).1,
  )

  after_last : (k : ℕ) (rng : XoroshiroRng) → after (suc k) rng ≡ (get_batch (after k rng)).1
  after_last zero rng = refl
  after_last (suc k) rng = after_last k (get_batch rng).1

  stream_last :
      (k : ℕ) (rng : XoroshiroRng)
      → stream (suc k) rng ≡ stream k rng ++ (get_batch (after k rng)).0
  stream_last zero rng = append-nil (get_batch rng).0
  stream_last (suc k) rng =
      ap (λ s. (get_batch rng).0 ++ s) (stream_last k (get_batch rng).1)
      ∙ sym (
          append_assoc (get_batch rng).0 (stream k (get_batch rng).1)
            (get_batch (after (suc k) rng)).0)

  take_past : (xs ys : List A) (n r : ℕ) → n ≡ length xs + r → take n (xs ++ ys) ≡ xs ++ take r ys
  take_past [] ys n r h = let e : n ≡ r = omega arith in ap (λ k. take k ys) e
  take_past (x ∷ xs) ys zero r h = absurd (omega arith)
  take_past (x ∷ xs) ys (suc n) r h = ap (λ t. x ∷ t) (take_past xs ys n r (omega arith))

  -- From an aligned address, the remainder at the end and the aligned end of the whole batches.
  ends :
      (dst n : ℕ)
      → dst % bytes ≡ 0
      → ((dst + 4 * n) % bytes ≡ 4 * (n % (bytes / 4)))
        × (dst + 4 * n ≡ dst + n / (bytes / 4) * bytes + 4 * (n % (bytes / 4)))
  ends dst n h =
      let lanes = bytes / 4 in
      let scaled : n / lanes * bytes ≡ n / lanes * (4 * lanes) =
        ap (λ b. n / lanes * b) bytes_whole in
      let split : dst + 4 * n ≡ dst + n / lanes * bytes + 4 * (n % lanes) =
        omega (arith, scaled, div-add-mod n lanes) in
      let below : n % lanes < lanes = mod-lt n (omega (arith, bytes_pos, bytes_whole)) in
      let whole_end : dst + 4 * n ≡ (dst / bytes + n / lanes) * bytes + 4 * (n % lanes) =
        omega (arith, split, h, div-add-mod dst bytes) in
      (
        ap (λ e. e % bytes) whole_end
            ∙ mul-add-mod_self_right (dst / bytes + n / lanes) bytes (4 * (n % lanes))
            ∙ mod-eq_of_lt (omega (arith, below, bytes_whole)),
        split,
      )

  -- From an address that is aligned to a register, a fill sets the `n` words there to the first `n`
  -- of the batches drawn, one batch more where the last is used in part, and changes no other word.
  pub fill_aligned_lem :
      (dst n : ℕ) (mem : ℕ → A) (rng : XoroshiroRng)
      → dst % bytes ≡ 0
      → fill_aligned traits get_batch dst n mem rng
        ≡ some (store mem dst (take n (stream (rounds n) rng)), after (rounds n) rng)
  unfolding fill_aligned
  fill_aligned_lem dst n mem rng h =
      let q = n / (bytes / 4) in
      let r = n % (bytes / 4) in
      let (rem, split) = ends dst n h in
      let quarter : 4 * r / 4 ≡ r = omega arith in
      let stop : dst + 4 * n - 4 * r ≡ dst + q * bytes = omega (arith, split) in
      let looped =
        loop_lem (suc n) q dst (dst + 4 * n - 4 * r) mem rng
          (let few = div-le_self n (bytes / 4) in omega arith) stop in
      let long = length-stream q rng in
      let filled : n ≡ length (stream q rng) + r =
        omega (arith, long, div-add-mod' n (bytes / 4)) in
      rw (rem, quarter, eq_pos h, looped)
        (elim (ℕ_discrete r 0) [
          | yes none_left ↦
              let zero_bytes : 4 * r ≡ 0 = omega arith in
              let all : n ≡ length (stream q rng) = omega arith in
              rw (eq_pos zero_bytes, eq_pos none_left)
                (ap (λ ws. some (store mem dst ws, after q rng))
                  (sym (ap (λ k. take k (stream q rng)) all ∙ take-length (stream q rng))))
          | no some_left ↦
              let more_bytes : 4 * r ≢ 0 = λ z. some_left (omega arith) in
              let last = (get_batch (after q rng)).0 in
              let words : stream q rng ++ take r last ≡ take n (stream (suc q) rng) = sym (
                ap (λ ws. take n ws) (stream_last q rng)
                ∙ take_past (stream q rng) last n r filled) in
              let next : dst + 4 * n - 4 * r ≡ dst + 4 * length (stream q rng) =
                omega (arith, filled) in
              rw (eq_neg more_bytes, eq_neg some_left, next)
                (ap₂ (λ m rng'. some (m, rng'))
                  (store-append mem dst (stream q rng) (take r last)
                    ∙ ap (λ ws. store mem dst ws) words)
                  (sym (after_last q rng)))
        ])

  length-take : (n : ℕ) (xs : List A) → n ≤ length xs → length (take n xs) ≡ n
  length-take zero xs h = refl
  length-take (suc n) [] h = absurd (omega arith)
  length-take (suc n) (x ∷ xs) h = let e = length-take n xs (omega arith) in omega arith

  enough_rounds : (n : ℕ) (rng : XoroshiroRng) → n ≤ length (stream (rounds n) rng)
  enough_rounds n rng =
      let lanes = bytes / 4 in
      let below : n % lanes < lanes = mod-lt n (omega (arith, bytes_pos, bytes_whole)) in
      elim (ℕ_discrete (n % lanes) 0) [
        | yes z ↦
            rw (eq_pos z) (omega (arith, length-stream (n / lanes) rng, div-add-mod' n lanes, z))
        | no nz ↦
            rw (eq_neg nz)
              (omega (arith, length-stream (suc (n / lanes)) rng, div-add-mod' n lanes, below))
      ]

  -- Up to the next aligned address there are whole words, fewer than a register holds.
  alignment :
      (dst : ℕ)
      → dst % 4 ≡ 0
      → (((bytes - dst % bytes) % bytes) / 4 < bytes / 4)
        × ((dst + 4 * (((bytes - dst % bytes) % bytes) / 4)) % bytes ≡ 0)
  alignment dst h =
      let m = dst % bytes in
      let below : m < bytes = mod-lt dst bytes_pos in
      let split = div-add-mod' dst bytes in
      let scaled : dst / bytes * bytes ≡ dst / bytes * (4 * (bytes / 4)) =
        ap (λ b. dst / bytes * b) bytes_whole in
      elim (ℕ_discrete m 0) [
        | yes z ↦
            let full : bytes - m ≡ bytes = omega arith in
            let e : (bytes - m) % bytes ≡ 0 = ap (λ k. k % bytes) full ∙ mod_self bytes in
            let same : dst + 4 * 0 ≡ dst = omega arith in
            rw e (omega (arith, bytes_pos, bytes_whole), ap (λ d. d % bytes) same ∙ z)
        | no nz ↦
            let e : (bytes - m) % bytes ≡ bytes - m = mod-eq_of_lt (omega arith) in
            let up : dst + 4 * ((bytes - m) / 4) ≡ suc (dst / bytes) * bytes =
              omega (arith, split, scaled, bytes_whole, below, h) in
            rw e (
              omega (arith, bytes_whole, below, nz, split, scaled, h),
              ap (λ d. d % bytes) up ∙ mul-mod_left (suc (dst / bytes)) bytes,
            )
      ]

  -- What a fill from an address that is aligned to a word writes, and the generator that it leaves:
  -- up to the next address that is aligned to a register the beginning of a first batch, if there
  -- is anything before that address, and from there on the batches after it.
  abbrev pub partial_words : ℕ → ℕ → XoroshiroRng → List A × XoroshiroRng
  partial_words dst n rng =
      let needed = (bytes - dst % bytes) % bytes in
      let e = needed / 4 in
      let (first, rng') = get_batch rng in
      if leb n e
      then (take n first, rng')
      else if needed == 0
      then (take n (stream (rounds n) rng), after (rounds n) rng)
      else (
        take e first ++ take (n - e) (stream (rounds (n - e)) rng'),
        after (rounds (n - e)) rng',
      )

  -- From an address that is aligned to a word, the partial fill sets exactly the `n` words there:
  -- those before the next address that is aligned to a register to the beginning of a first batch,
  -- if there are any, and the others to the batches after it; if they do not reach that address all
  -- are of the first batch. The generator is left behind the last batch drawn.
  pub fill_partial_aligned_lem :
      (dst n : ℕ) (mem : ℕ → A) (rng : XoroshiroRng)
      → dst % 4 ≡ 0
      → (length (partial_words dst n rng).0 ≡ n)
        × (fill_partial_aligned traits get_batch dst n mem rng
            ≡ some (store mem dst (partial_words dst n rng).0, (partial_words dst n rng).1))
  unfolding fill_partial_aligned
  fill_partial_aligned_lem dst n mem rng h =
      let needed = (bytes - dst % bytes) % bytes in
      let e = needed / 4 in
      let (below, aligned) = alignment dst h in
      let (first, rng') = get_batch rng in
      elim (dec_le n e) [
        | yes few ↦
            rw (eq_pos h, leb_pos few) (length-take n first (omega (arith, whole rng)), refl)
        | no many ↦
            let over : e < n = omega arith in
            rw (eq_pos h, leb_neg over)
              (elim (ℕ_discrete needed 0) [
                | yes z ↦
                    let at_dst : dst + 4 * e ≡ dst = omega (arith, z) in
                    rw (eq_pos z) (
                      length-take n (stream (rounds n) rng) (enough_rounds n rng),
                      fill_aligned_lem dst n mem rng (ap (λ d. d % bytes) (sym at_dst) ∙ aligned),
                    )
                | no nz ↦
                    let rest = take (n - e) (stream (rounds (n - e)) rng') in
                    let head_length = length-take e first (omega (arith, whole rng)) in
                    rw (eq_neg nz) (
                      omega (
                        arith,
                        length-append (take e first) rest,
                        head_length,
                        length-take (n - e) (stream (rounds (n - e)) rng')
                            (enough_rounds (n - e) rng'),
                      ),
                      fill_aligned_lem (dst + 4 * e) (n - e) (store mem dst (take e first)) rng'
                            aligned
                          ∙ ap (λ m. some (m, after (rounds (n - e)) rng'))
                              (ap (λ l. store (store mem dst (take e first)) (dst + 4 * l) rest)
                                  (sym head_length)
                                ∙ store-append mem dst (take e first) rest),
                    )
              ])
      ]
