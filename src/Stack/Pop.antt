-- ===== src/Stack/Pop.antt =====
-- The steps of Pop.
use chat_server_mt.Base.{
  ℕ, ◌+◌, ◌-◌, ◌%◌, ◌^◌, ◌<◌, ◌≡◌, ◌∙◌, refl, sym, subst, ap, List, [], ◌∷◌, ◌==◌, arith, map,
}
use chat_server_mt.Stack.{
  Shared, pop_top, pop_next, pop_cas, pop_size, pop_data, pop_free, Pc, popping, finished, is_top,
  run_pop, pops,
}
use chat_server_mt.Stack.Threads.{owns, Linked}
use chat_server_mt.Stack.Inv.{Keeps}
use chat_server_mt.Stack.Frame.{exchange-Ok, size-Ok, frame_all}
use chat_server_mt.Stack.Rebuild.{Around, Around-Inv, moves, by_test, is_top-same}

-- The null pointer is the top of the empty stack only.
pub Linked-null : (next : ℕ → ℕ) (p : ℕ) (xs : List ℕ) → Linked next p xs → p ≡ 0 → xs ≡ []
Linked-null next p [] l e = refl
Linked-null next p (x ∷ xs) l e = ground (arith, l.0, l.1, e)

module _ (m : Shared) (before after : List Pc) where
  module _ (xs : List ℕ) where
    pub pop_top-Keeps :
        Around m xs before (popping pop_top) after → Keeps xs m before after (run_pop pop_top m)
    unfolding run_pop
    pop_top-Keeps w =
        by_test xs m before after _ _ (m.top == 0)
          (λ e.
            let none = ap (map m.cell) (Linked-null m.next m.top xs w.linked (ground (arith, e))) in
            (
              xs,
              Around-Inv m xs before _ after (moves w finished (λ b. omega arith) refl refl tt),
              (none, none),
            ))
          (λ e. (
            xs,
            Around-Inv m xs before _ after (
                moves w (popping (pop_next m.top m.tag)) (λ b. omega arith) refl refl
                  (ground (arith, e), (omega arith, λ e'. refl))),
            refl,
          ))

    pub pop_next-Keeps :
        (a t : ℕ)
        → Around m xs before (popping (pop_next a t)) after
        → Keeps xs m before after (run_pop (pop_next a t) m)
    unfolding run_pop
    pop_next-Keeps a t w = (
      xs,
      Around-Inv m xs before _ after (
          moves w (popping (pop_cas a t (m.next a))) (λ b. omega arith) refl refl
            (w.mine.0, w.mine.1, λ e. refl)),
      refl,
    )

    pub pop_size-Keeps :
        (a v : ℕ)
        → Around m xs before (popping (pop_size a v)) after
        → Keeps xs m before after (run_pop (pop_size a v) m)
    unfolding run_pop
    pop_size-Keeps a v w =
        let n : ℕ = (m.size + (2 ^ 64 - 1)) % 2 ^ 64 in
        let m' = record m { size = n } in
        (
          xs,
          Around-Inv m' xs before (popping (pop_data a v)) after (record {
            linked = w.linked;
            mine = w.mine;
            front = frame_all m m' (size-Ok m n) before w.front;
            back = frame_all m m' (size-Ok m n) after w.back;
            apart = w.apart;
            sized = omega (arith, w.sized);
          }),
          refl,
        )

    pub pop_data-Keeps :
        (a v : ℕ)
        → Around m xs before (popping (pop_data a v)) after
        → Keeps xs m before after (run_pop (pop_data a v) m)
    unfolding run_pop
    pop_data-Keeps a v w = (
      xs,
      Around-Inv m xs before _ after
          (moves w (popping (pop_free a (m.cell a))) (λ b. omega arith) refl refl refl),
      refl,
    )

    pub pop_free-Keeps :
        (a v : ℕ)
        → Around m xs before (popping (pop_free a v)) after
        → Keeps xs m before after (run_pop (pop_free a v) m)
    unfolding run_pop
    pop_free-Keeps a v w = (
      xs,
      Around-Inv m xs before _ after (moves w finished (λ b. omega arith) refl refl tt),
      refl,
    )

  -- The exchange takes the first node off.
  popped :
      (xs : List ℕ) (a t n : ℕ)
      → Around m xs before (popping (pop_cas a t n)) after
      → (t ≡ m.tag) × (a ≡ m.top)
      → Keeps xs m before after
          (pops (m.cell a), record m { top = n; tag = m.tag + 1 }, popping (pop_size a (m.cell a)))
  popped [] a t n w same = ground (arith, w.mine.0, w.linked, same.1)
  popped (x ∷ ys) a t n w same =
      let m' = record m { top = n; tag = m.tag + 1 } in
      let here : x ≡ a = sym (same.1 ∙ w.linked.0) in
      let rest : n ≡ m.next x = w.mine.2 same.0 ∙ ap m.next (sym here) in
      (
        ys,
        Around-Inv m' ys before (popping (pop_size a (m.cell a))) after (record {
          linked = subst (λ p. Linked m.next p ys) (sym rest) w.linked.2;
          mine = refl;
          front = frame_all m m' (exchange-Ok m n) before w.front;
          back = frame_all m m' (exchange-Ok m n) after w.back;
          apart =
              λ b. omega (arith, w.apart b, ap (λ (q : ℕ). owns b (popping (pop_free q 0))) here);
          sized = omega (arith, w.sized);
        }),
        ap (λ q. m.cell q ∷ map m.cell ys) here,
      )

  pub pop_cas-Keeps :
      (xs : List ℕ) (a t n : ℕ)
      → Around m xs before (popping (pop_cas a t n)) after
      → m.tag < t + 2 ^ 17
      → Keeps xs m before after (run_pop (pop_cas a t n) m)
  unfolding run_pop
  pop_cas-Keeps xs a t n w recent =
      by_test xs m before after _ _ (is_top a t m)
        (λ e. popped xs a t n w (is_top-same m a t e w.mine.1 recent))
        (λ e. (
          xs,
          Around-Inv m xs before _ after
              (moves w (popping pop_top) (λ b. omega arith) refl refl tt),
          refl,
        ))
