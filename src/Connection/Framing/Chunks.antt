-- ===== src/Connection/Framing/Chunks.antt =====
-- The loop over bytes that arrive in pieces: how the stream is cut into reads does not matter.
use psl_xserver.Connection.{ClientConnection, next_sequence}
use psl_xserver.Connection.Framing.{
  Handler, Head, Session, crashed, dead, drain, next_request, receive, request, running, serve,
  waiting,
}
use psl_xserver.Connection.Framing.Cuts.{extend, next_request-append, next_request_shrinks}
use psl_xserver.Outcome.{Result, Result-cases, err, ok, panic}
use psl_xserver.Prelude.{
  List, [], ap, append_assoc, arith, inl, inr, length, length-append, refl, subst, suc, sym, zero,
  ℕ, ◌%◌, ◌++◌, ◌+◌, ◌^◌, ◌∙◌, ◌∷◌, ◌≡◌, ◌≢◌, ◌≤◌, ◌⊎◌,
}

Head-cases :
    (h : Head)
    → (h ≡ waiting)
      ⊎ (h ≡ crashed)
      ⊎ ((op : ℕ) × (d : List ℕ) × (rest : List ℕ) × (h ≡ request op d rest))
Head-cases waiting = inl refl
Head-cases crashed = inr (inl refl)
Head-cases (request op d rest) = inr (inr (op, d, rest, refl))

-- The connection once the next sequence number is taken.
abbrev pub advance : ClientConnection → ClientConnection
advance conn = record conn { sequence_number = (conn.sequence_number + 1) % 2 ^ 16 }

-- How the loop goes on after one request.
abbrev pub go_on {ℓ} : {S : Type ℓ} → (S → List ℕ → Session S) → Result (S × List ℕ) → Session S
go_on next (ok (s, written)) = next s written
go_on next (err e) = dead
go_on next panic = dead

-- No whole request is pending.
abbrev pub IsDrained {ℓ} : {S : Type ℓ} → Session S → Type 0
IsDrained (running conn pending s out) = next_request conn.byte_order pending ≡ waiting
IsDrained dead = Unit {0}

module _ {ℓ} {S : Type ℓ} (handle : Handler S) where
  pub drain_waiting :
      (f : ℕ) (conn : ClientConnection) (pending : List ℕ) (s : S) (out : List ℕ)
      → next_request conn.byte_order pending ≡ waiting
      → drain handle (suc f) conn pending s out ≡ running conn pending s out
  unfolding drain
  drain_waiting f conn pending s out e = rw (e, drain)

  pub drain_crashed :
      (f : ℕ) (conn : ClientConnection) (pending : List ℕ) (s : S) (out : List ℕ)
      → next_request conn.byte_order pending ≡ crashed
      → drain handle (suc f) conn pending s out ≡ dead
  unfolding drain
  drain_crashed f conn pending s out e = rw (e, drain)

  pub drain_request :
      (f : ℕ) (conn : ClientConnection) (pending : List ℕ) (s : S) (out : List ℕ) (op : ℕ)
      (d rest : List ℕ)
      → next_request conn.byte_order pending ≡ request op d rest
      → drain handle (suc f) conn pending s out
        ≡ go_on
            (λ s' written. drain handle f (advance conn) rest s' (out ++ written))
            (serve handle (advance conn) op d s)
  unfolding drain next_sequence
  drain_request f conn pending s out op d rest e =
      rw (e, drain)
        (elim (Result-cases (serve handle (advance conn) op d s)) [
          | inl ((s', w), r) ↦ rw r refl
          | inr (inl (x, r)) ↦ rw r refl
          | inr (inr r) ↦ rw r refl
        ])

  pub go_on_congr :
      (r : Result (S × List ℕ)) (f g : S → List ℕ → Session S)
      → ((s : S) (w : List ℕ) → f s w ≡ g s w)
      → go_on f r ≡ go_on g r
  go_on_congr (ok (s, w)) f g h = h s w
  go_on_congr (err e) f g h = refl
  go_on_congr panic f g h = refl

  -- More fuel than pending bytes changes nothing.
  pub drain_fuel :
      (f g : ℕ) (conn : ClientConnection) (pending : List ℕ) (s : S) (out : List ℕ)
      → length pending ≤ f
      → length pending ≤ g
      → drain handle f conn pending s out ≡ drain handle g conn pending s out
  drain_fuel zero zero conn pending s out hf hg = refl
  drain_fuel zero (suc g) conn [] s out hf hg = unfold drain next_request in refl
  drain_fuel zero (suc g) conn (x ∷ pending) s out hf hg = absurd (omega arith)
  drain_fuel (suc f) zero conn [] s out hf hg = unfold drain next_request in refl
  drain_fuel (suc f) zero conn (x ∷ pending) s out hf hg = absurd (omega arith)
  drain_fuel (suc f) (suc g) conn pending s out hf hg =
      elim (Head-cases (next_request conn.byte_order pending)) [
        | inl e ↦ drain_waiting f conn pending s out e ∙ sym (drain_waiting g conn pending s out e)
        | inr (inl e) ↦
            drain_crashed f conn pending s out e ∙ sym (drain_crashed g conn pending s out e)
        | inr (inr (op, d, rest, e)) ↦
            let shorter = next_request_shrinks conn.byte_order pending op d rest e in
            drain_request f conn pending s out op d rest e
            ∙ go_on_congr (serve handle (advance conn) op d s) _ _ (λ s' w.
              drain_fuel f g (advance conn) rest s' (out ++ w) (omega (arith, shorter))
                (omega (arith, shorter)))
            ∙ sym (drain_request g conn pending s out op d rest e)
      ]

  receive-go_on :
      (more : List ℕ) (r : Result (S × List ℕ)) (f : S → List ℕ → Session S)
      → receive handle more (go_on f r) ≡ go_on (λ s w. receive handle more (f s w)) r
  unfolding receive
  receive-go_on more (ok (s, w)) f = refl
  receive-go_on more (err e) f = refl
  receive-go_on more panic f = refl

  -- Receiving more after the loop is running the loop on the longer bytes.
  receive-drain :
      (f g : ℕ) (conn : ClientConnection) (pending more : List ℕ) (s : S) (out : List ℕ)
      → length pending ≤ f
      → length (pending ++ more) ≤ g
      → receive handle more (drain handle f conn pending s out)
        ≡ drain handle g conn (pending ++ more) s out
  receive-drain zero g conn [] more s out hf hg =
      unfold drain receive in drain_fuel (length more) g conn more s out (omega arith) hg
  receive-drain zero g conn (x ∷ pending) more s out hf hg = absurd (omega arith)
  receive-drain (suc f) g conn pending more s out hf hg =
      elim (Head-cases (next_request conn.byte_order pending)) [
        | inl e ↦
            ap (receive handle more) (drain_waiting f conn pending s out e)
            ∙ unfold receive in
              drain_fuel (length (pending ++ more)) g conn (pending ++ more) s out (omega arith) hg
        | inr (inl e) ↦
            ap (receive handle more) (drain_crashed f conn pending s out e)
            ∙ unfold receive in
              sym (drain_crashed g conn (pending ++ more) s out (later e (λ w. cc)))
              ∙ drain_fuel (suc g) g conn (pending ++ more) s out (omega arith) hg
        | inr (inr (op, d, rest, e)) ↦
            let shorter = next_request_shrinks conn.byte_order pending op d rest e in
            ap (receive handle more) (drain_request f conn pending s out op d rest e)
            ∙ receive-go_on more (serve handle (advance conn) op d s) _
            ∙ go_on_congr (serve handle (advance conn) op d s) _ _ (λ s' w.
              receive-drain f g (advance conn) rest more s' (out ++ w) (omega (arith, shorter))
                (omega (arith, shorter, length-append rest more, length-append pending more)))
            ∙ sym (
                drain_request g conn (pending ++ more) s out op d (rest ++ more)
                  (later e (λ w. cc)))
            ∙ drain_fuel (suc g) g conn (pending ++ more) s out (omega arith) hg
      ]
    where
      later :
          {h : Head}
          → next_request conn.byte_order pending ≡ h
          → h ≢ waiting
          → next_request conn.byte_order (pending ++ more) ≡ extend more h
      later e ne =
          next_request-append conn.byte_order pending more (λ w. ne (sym e ∙ w))
          ∙ ap (extend more) e

  -- Two chunks received one after the other leave the session, its replies included, as the two
  -- received at once.
  pub receive-append :
      (first second : List ℕ) (session : Session S)
      → receive handle second (receive handle first session)
        ≡ receive handle (first ++ second) session
  receive-append first second dead = unfold receive in refl
  receive-append first second (running conn pending s out) =
      unfold receive in
      receive-drain (length (pending ++ first)) (length (pending ++ (first ++ second))) conn
        (pending ++ first) second s out (omega arith)
        (omega (arith, ap length (append_assoc pending first second)))
      ∙ ap (λ bytes. drain handle (length (pending ++ (first ++ second))) conn bytes s out)
          (append_assoc pending first second)

  go_on-IsDrained :
      (r : Result (S × List ℕ)) (f : S → List ℕ → Session S)
      → ((s : S) (w : List ℕ) → IsDrained (f s w))
      → IsDrained (go_on f r)
  go_on-IsDrained (ok (s, w)) f h = h s w
  go_on-IsDrained (err e) f h = tt
  go_on-IsDrained panic f h = tt

  drain-IsDrained :
      (f : ℕ) (conn : ClientConnection) (pending : List ℕ) (s : S) (out : List ℕ)
      → length pending ≤ f
      → IsDrained (drain handle f conn pending s out)
  drain-IsDrained zero conn [] s out h = unfold drain next_request in refl
  drain-IsDrained zero conn (x ∷ pending) s out h = absurd (omega arith)
  drain-IsDrained (suc f) conn pending s out h =
      elim (Head-cases (next_request conn.byte_order pending)) [
        | inl e ↦ subst IsDrained (sym (drain_waiting f conn pending s out e)) e
        | inr (inl e) ↦ subst IsDrained (sym (drain_crashed f conn pending s out e)) tt
        | inr (inr (op, d, rest, e)) ↦
            subst IsDrained (sym (drain_request f conn pending s out op d rest e)) (
              go_on-IsDrained (serve handle (advance conn) op d s) _ (λ s' w.
                drain-IsDrained f (advance conn) rest s' (out ++ w)
                  (omega (arith, next_request_shrinks conn.byte_order pending op d rest e))))
      ]

  -- Whatever arrives, every whole request is answered: what stays pending is no whole request, unless
  -- the session died.
  pub receive-IsDrained :
      (chunk : List ℕ) (conn : ClientConnection) (pending : List ℕ) (s : S) (out : List ℕ)
      → IsDrained (receive handle chunk (running conn pending s out))
  receive-IsDrained chunk conn pending s out =
      unfold receive in
      drain-IsDrained (length (pending ++ chunk)) conn (pending ++ chunk) s out (omega arith)
