-- ===== src/Net/Socket/Exact.antt =====
-- What the loops bring across, however the kernel cuts the stream.
use message_us_cld.Prelude.{
  ℕ, zero, suc, ◌+◌, ◌-◌, ◌≤◌, ◌<◌, ◌≡◌, refl, sym, ap, ◌∙◌, arith, Bool, true, List, [], ◌∷◌, ◌++◌,
  length, take, drop, append-nil, append_assoc, length-drop, subst, take-append-drop,
}
use message_us_cld.Net.Socket.{Kernel, Socket, recv_loop, recv_exact, send_loop, send_exact}

-- As long as bytes are to come, recv brings some of them, and no more than asked for.
abbrev pub Delivers : Kernel → Type 0
Delivers kernel =
    (turn n left : ℕ)
    → 0 < n
    → 0 < left
    → (0 < kernel.recv turn n left)
      × (kernel.recv turn n left ≤ n)
      × (kernel.recv turn n left ≤ left)

-- Every send takes some of the bytes.
abbrev pub Accepts : Kernel → Type 0
Accepts kernel = (turn n : ℕ) → 0 < n → (0 < kernel.send turn n) × (kernel.send turn n ≤ n)

take-nil : (n : ℕ) → take {A = ℕ} n [] ≡ []
take-nil zero = refl
take-nil (suc n) = refl

drop-nil : (n : ℕ) → drop {A = ℕ} n [] ≡ []
drop-nil zero = refl
drop-nil (suc n) = refl

take-take-drop : (r n : ℕ) (xs : List ℕ) → r ≤ n → take r xs ++ take (n - r) (drop r xs) ≡ take n xs
take-take-drop zero n xs le = ap (λ m. take m xs) (omega arith)
take-take-drop (suc r) zero xs le = absurd (omega arith)
take-take-drop (suc r) (suc n) [] le = take-nil (suc n - suc r)
take-take-drop (suc r) (suc n) (x ∷ xs) le =
    ap (λ t. x ∷ t)
      (ap (λ m. take r xs ++ take m (drop r xs)) (omega arith)
        ∙ take-take-drop r n xs (omega arith))

drop-drop : (r n : ℕ) (xs : List ℕ) → r ≤ n → drop (n - r) (drop r xs) ≡ drop n xs
drop-drop zero n xs le = ap (λ m. drop m xs) (omega arith)
drop-drop (suc r) zero xs le = absurd (omega arith)
drop-drop (suc r) (suc n) [] le = drop-nil (suc n - suc r)
drop-drop (suc r) (suc n) (x ∷ xs) le =
    ap (λ m. drop m (drop r xs)) (omega arith) ∙ drop-drop r n xs (omega arith)

-- What a loop that gets its bytes does to a socket.
abbrev pub Received : ℕ → Socket → Bool × List ℕ × Socket → Type 0
Received n s (ok, bytes, s') =
    (ok ≡ true) × (bytes ≡ take n s.incoming) × (s'.incoming ≡ drop n s.incoming)

module _ (kernel : Kernel) where
  -- A round of the loop that brings something.
  recv_loop-suc :
      (fuel : ℕ) (s : Socket) (n : ℕ)
      → let r = kernel.recv s.turn (suc n) (length s.incoming) in
        let rest =
          recv_loop kernel fuel
            (record s { turn = s.turn + 1; incoming = drop r s.incoming })
            (suc n - r) in
        0 < r
        → recv_loop kernel (suc fuel) s (suc n) ≡ (rest.0, take r s.incoming ++ rest.1, rest.2)
  unfolding recv_loop
  recv_loop-suc fuel s n pos = ground arith

  recv_loop-all :
      Delivers kernel
      → (fuel : ℕ) (s : Socket) (n : ℕ) → n ≤ fuel
      → n ≤ length s.incoming
      → Received n s (recv_loop kernel fuel s n)
  unfolding recv_loop
  recv_loop-all del fuel s zero enough le = (refl, refl, refl)
  recv_loop-all del zero s (suc n) enough le = absurd (omega arith)
  recv_loop-all del (suc fuel) s (suc n) enough le =
      let (pos, asked, there) =
        del s.turn (suc n) (length s.incoming) (omega arith) (omega arith) in
      let (ok, bytes, rest) =
        recv_loop-all del fuel (record s { turn = s.turn + 1; incoming = drop r s.incoming })
          (suc n - r) (omega arith) (omega (arith, length-drop r s.incoming)) in
      subst (Received (suc n) s) (sym (recv_loop-suc fuel s n pos)) (
        ok,
        ap (λ bs. take r s.incoming ++ bs) bytes ∙ take-take-drop r (suc n) s.incoming asked,
        rest ∙ drop-drop r (suc n) s.incoming asked,
      )
    where
      r : ℕ
      r = kernel.recv s.turn (suc n) (length s.incoming)

  -- All that was asked for is in the stream: recv_exact takes it, and nothing else.
  pub recv_exact-all :
      Delivers kernel
      → (s : Socket) (n : ℕ) → n ≤ length s.incoming
      → Received n s (recv_exact kernel s n)
  unfolding recv_exact
  recv_exact-all del s n le = recv_loop-all del n s n (omega arith) le

  send_loop-suc :
      (fuel : ℕ) (s : Socket) (b : ℕ) (bs : List ℕ)
      → let r = kernel.send s.turn (length (b ∷ bs)) in
        0 < r
        → send_loop kernel (suc fuel) s (b ∷ bs)
          ≡ send_loop kernel fuel
              (record s { turn = s.turn + 1; outgoing = s.outgoing ++ take r (b ∷ bs) })
              (drop r (b ∷ bs))
  unfolding send_loop
  send_loop-suc fuel s b bs pos = ground arith

  abbrev Sent : List ℕ → Socket → Bool × Socket → Type 0
  Sent bytes s (ok, s') = (ok ≡ true) × (s'.outgoing ≡ s.outgoing ++ bytes)

  send_loop-all :
      Accepts kernel
      → (fuel : ℕ) (s : Socket) (bytes : List ℕ) → length bytes ≤ fuel
      → Sent bytes s (send_loop kernel fuel s bytes)
  unfolding send_loop
  send_loop-all acc fuel s [] enough = (refl, sym (append-nil s.outgoing))
  send_loop-all acc zero s (b ∷ bs) enough = absurd (omega arith)
  send_loop-all acc (suc fuel) s (b ∷ bs) enough =
      let (pos, asked) = acc s.turn (length (b ∷ bs)) (omega arith) in
      let (ok, out) =
        send_loop-all acc fuel
          (record s { turn = s.turn + 1; outgoing = s.outgoing ++ take r (b ∷ bs) })
          (drop r (b ∷ bs)) (omega (arith, length-drop r (b ∷ bs))) in
      subst (Sent (b ∷ bs) s) (sym (send_loop-suc fuel s b bs pos)) (
        ok,
        out
            ∙ append_assoc s.outgoing (take r (b ∷ bs)) (drop r (b ∷ bs))
            ∙ ap (λ t. s.outgoing ++ t) (take-append-drop r (b ∷ bs)),
      )
    where
      r : ℕ
      r = kernel.send s.turn (length (b ∷ bs))

  pub send_exact-all :
      Accepts kernel → (s : Socket) (bytes : List ℕ) → Sent bytes s (send_exact kernel s bytes)
  unfolding send_exact
  send_exact-all acc s bytes = send_loop-all acc (length bytes) s bytes (omega arith)
