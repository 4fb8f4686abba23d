-- ===== src/Audio/Ring.antt =====
-- The buffer between the network and the audio queue (src/audio.rs, `AudioRingBuffer`) keeps the
-- newest bytes in their order.
use psl_xserver.Audio.{AudioRingBuffer, AudioState, audio_queue_callback, pull, push}
use psl_xserver.Outcome.{ok, panic}
use psl_xserver.Prelude.{
  Bool-cases, List, [], ap, ap₂, arith, drop, drop-append_le, false, if◌then◌else◌, inl, inr, leb,
  leb→le, length, length-take, ltb, min, refl, replicate, some, subst, suc, sym, take, take-append,
  true, zero, ℕ, ◌%◌, ◌++◌, ◌+◌, ◌-◌, ◌^◌, ◌∙◌, ◌∷◌, ◌≡◌, ◌≤◌,
}

abbrev pub Bounded : AudioRingBuffer → Type 0
Bounded ring = length ring.content ≤ ring.capacity

drop-all : (n : ℕ) (xs ys : List ℕ) → n ≤ length xs → drop n xs ++ ys ≡ drop n (xs ++ ys)
drop-all n xs ys h = sym (drop-append_le n xs ys h)

min_zero : (n : ℕ) → min n 0 ≡ 0
min_zero n = omega arith

min-suc : (m n : ℕ) → min (suc m) (suc n) ≡ suc (min m n)
min-suc m n = omega arith

take-min : (n : ℕ) (xs : List ℕ) → take (min n (length xs)) xs ≡ take n xs
take-min zero xs = ap (λ k. take k xs) (none_of (length xs))
  where
    none_of : (m : ℕ) → min 0 m ≡ 0
    none_of m = omega arith
take-min (suc n) [] = ap (λ k. take {A = ℕ} k []) (min_zero (suc n))
take-min (suc n) (x ∷ xs) =
    ap (λ k. take k (x ∷ xs)) (min-suc n (length xs)) ∙ ap (◌∷◌ x) (take-min n xs)

drop-min : (n : ℕ) (xs : List ℕ) → drop (min n (length xs)) xs ≡ drop n xs
drop-min zero xs = ap (λ k. drop k xs) (none_of (length xs))
  where
    none_of : (m : ℕ) → min 0 m ≡ 0
    none_of m = omega arith
drop-min (suc n) [] = ap (λ k. drop {A = ℕ} k []) (min_zero (suc n))
drop-min (suc n) (x ∷ xs) = ap (λ k. drop k (x ∷ xs)) (min-suc n (length xs)) ∙ drop-min n xs

-- Pushing bytes on a buffer that holds no more than its capacity leaves the newest bytes, as many as
-- there is room for, if the bytes pushed fit the capacity at all; if they do not, it panics.
pub push-newest :
    (ring : AudioRingBuffer) (bytes : List ℕ)
    → Bounded ring
    → push ring bytes ≡ (
        if leb (length bytes) ring.capacity
        then ok (record ring {
          content =
              drop (length ring.content + length bytes - ring.capacity) (ring.content ++ bytes);
        })
        else panic)
unfolding push
push-newest ring bytes bounded =
    elim (Bool-cases (ltb (ring.capacity - length ring.content) (length bytes))) [
      | inl full ↦ elim (Bool-cases (leb (length bytes) ring.capacity)) [
        | inl fits ↦
            let to_drop = length bytes - (ring.capacity - length ring.content) in
            let room : leb to_drop (length ring.content) ≡ true = ground arith in
            let same : to_drop ≡ length ring.content + length bytes - ring.capacity =
              ground arith in
            let kept =
              drop-all to_drop ring.content bytes (leb→le to_drop (length ring.content) room) in
            rw (push, full, fits, room)
              (ap (λ c. ok (record ring { content = c }))
                (kept ∙ ap (λ n. drop n (ring.content ++ bytes)) same))
        | inr long ↦
            let no_room : leb (length bytes - (ring.capacity - length ring.content))
                  (length ring.content)
                ≡ false =
              ground arith in
            rw (push, full, long, no_room) refl
      ]
      | inr roomy ↦
          let fits : leb (length bytes) ring.capacity ≡ true = ground arith in
          let all : 0 ≡ length ring.content + length bytes - ring.capacity = ground arith in
          rw (push, roomy, fits)
            (ap (λ n. ok (record ring { content = drop n (ring.content ++ bytes) })) all)
    ]

-- The callback of the audio queue plays the oldest bytes, fills up with silence, and leaves the bytes
-- that were not played; it counts what it played, modulo 2 ^ 64.
pub audio_queue_callback-oldest :
    (audio : AudioState) (ring : AudioRingBuffer) (buf : List ℕ)
    → audio.ring ≡ some ring
    → audio_queue_callback audio buf ≡ (
      record audio {
        ring = some (record ring { content = drop (length buf) ring.content });
        bytes_consumed = (audio.bytes_consumed + min (length buf) (length ring.content)) % 2 ^ 64;
      },
      take (length buf) ring.content ++ replicate (length buf - length ring.content) 0,
    )
unfolding audio_queue_callback pull
audio_queue_callback-oldest audio ring buf known =
    let n = min (length buf) (length ring.content) in
    let size : length (take n ring.content) ≡ n = omega (arith, length-take n ring.content) in
    let filled : take n (take n ring.content ++ drop n buf) ≡ take (length buf) ring.content =
      subst (λ k. take k (take n ring.content ++ drop n buf) ≡ take n ring.content) size
        (take-append (take n ring.content) (drop n buf))
      ∙ take-min (length buf) ring.content in
    let silent : length buf - n ≡ length buf - length ring.content = omega arith in
    rw (known, audio_queue_callback)
      (ap₂
        (λ c l. (
          record audio {
            ring = some (record ring { content = c });
            bytes_consumed = (audio.bytes_consumed + n) % 2 ^ 64;
          },
          l,
        ))
        (drop-min (length buf) ring.content) (ap₂ (λ a k. a ++ replicate k 0) filled silent))
