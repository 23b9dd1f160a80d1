-- ===== src/Stack/Push.antt =====
-- The steps of Push.
use chat_server_mt.Base.{
  ℕ, ◌+◌, ◌%◌, ◌^◌, ◌<◌, ◌≡◌, ◌≢◌, ◌∙◌, refl, sym, subst, ap, List, ◌∷◌, arith, map,
}
use chat_server_mt.Stack.{
  Shared, push_data, push_top, push_next, push_cas, push_size, Pc, pushing, finished, update,
  is_top, run_push, pushes,
}
use chat_server_mt.Stack.Threads.{times_in, Linked}
use chat_server_mt.Stack.Inv.{Keeps, Linked-update, map-update, times_in-top}
use chat_server_mt.Stack.Frame.{exchange-Ok, next-Ok, cell-Ok, size-Ok, frame, frame_all}
use chat_server_mt.Stack.Rebuild.{
  Around, Around-Inv, alone, moves, owns_self, update_self, by_test, is_top-same,
}

module _ (m : Shared) (xs : List ℕ) (before after : List Pc) where
  pub push_data-Keeps :
      (a v : ℕ)
      → Around m xs before (pushing (push_data a v)) after
      → Keeps xs m before after (run_push (push_data a v) m)
  unfolding run_push
  push_data-Keeps a v w =
      let m' = record m { cell = update m.cell a v } in
      let mine = alone w a (owns_self a) in
      (
        xs,
        Around-Inv m' xs before (pushing (push_top a v)) after (record {
          linked = w.linked;
          mine = (w.mine, update_self m.cell a v);
          front = frame m m' a (cell-Ok m a v) before mine.1 w.front;
          back = frame m m' a (cell-Ok m a v) after mine.2 w.back;
          apart = w.apart;
          sized = w.sized;
        }),
        map-update a v m.cell xs mine.0,
      )

  pub push_top-Keeps :
      (a v : ℕ)
      → Around m xs before (pushing (push_top a v)) after
      → Keeps xs m before after (run_push (push_top a v) m)
  unfolding run_push
  push_top-Keeps a v w = (
    xs,
    Around-Inv m xs before _ after (
        moves w (pushing (push_next a v m.top m.tag)) (λ b. omega arith) refl refl
          (w.mine.0, w.mine.1, (omega arith, λ e. refl))),
    refl,
  )

  -- A node that a thread has is not the top.
  top-other : (a : ℕ) → Linked m.next m.top xs → times_in a xs ≡ 0 → 0 < a → m.top ≢ a
  top-other a l none pos e =
      omega (arith, times_in-top m.next m.top xs l (omega (arith, e)), ap (λ b. times_in b xs) e)

  pub push_next-Keeps :
      (a v o t : ℕ)
      → Around m xs before (pushing (push_next a v o t)) after
      → Keeps xs m before after (run_push (push_next a v o t) m)
  unfolding run_push
  push_next-Keeps a v o t w =
      let m' = record m { next = update m.next a o } in
      let mine = alone w a (owns_self a) in
      let pos = w.mine.0 in
      let one = λ (pc : Pc). next-Ok m a o pc (top-other a w.linked mine.0) pos in
      (
        xs,
        Around-Inv m' xs before (pushing (push_cas a v o t)) after (record {
          linked = Linked-update a o m.next m.top xs mine.0 w.linked;
          mine = (pos, w.mine.1, w.mine.2, update_self m.next a o);
          front = frame m m' a one before mine.1 w.front;
          back = frame m m' a one after mine.2 w.back;
          apart = w.apart;
          sized = w.sized;
        }),
        refl,
      )

  pushed :
      (a v o t : ℕ)
      → Around m xs before (pushing (push_cas a v o t)) after
      → o ≡ m.top
      → Keeps xs m before after (pushes v, record m { top = a; tag = m.tag + 1 }, pushing push_size)
  pushed a v o t w same =
      let m' = record m { top = a; tag = m.tag + 1 } in
      (
        a ∷ xs,
        Around-Inv m' (a ∷ xs) before (pushing push_size) after (record {
          linked =
              (refl, w.mine.0, subst (λ p. Linked m.next p xs) (sym (w.mine.3 ∙ same)) w.linked);
          mine = tt;
          front = frame_all m m' (exchange-Ok m a) before w.front;
          back = frame_all m m' (exchange-Ok m a) after w.back;
          apart = λ b. omega (arith, w.apart b);
          sized = omega (arith, w.sized);
        }),
        ap (λ x. x ∷ map m.cell xs) w.mine.1,
      )

  pub push_cas-Keeps :
      (a v o t : ℕ)
      → Around m xs before (pushing (push_cas a v o t)) after
      → m.tag < t + 2 ^ 17
      → Keeps xs m before after (run_push (push_cas a v o t) m)
  unfolding run_push
  push_cas-Keeps a v o t w recent =
      by_test xs m before after _ _ (is_top o t m)
        (λ e. pushed a v o t w (is_top-same m o t e w.mine.2 recent).1)
        (λ e. (
          xs,
          Around-Inv m xs before _ after
              (moves w (pushing (push_top a v)) (λ b. omega arith) refl refl (w.mine.0, w.mine.1)),
          refl,
        ))

  pub push_size-Keeps :
      Around m xs before (pushing push_size) after → Keeps xs m before after (run_push push_size m)
  unfolding run_push
  push_size-Keeps w =
      let m' = record m { size = (m.size + 1) % 2 ^ 64 } in
      (
        xs,
        Around-Inv m' xs before finished after (record {
          linked = w.linked;
          mine = tt;
          front = frame_all m m' (size-Ok m ((m.size + 1) % 2 ^ 64)) before w.front;
          back = frame_all m m' (size-Ok m ((m.size + 1) % 2 ^ 64)) after w.back;
          apart = w.apart;
          sized = omega (arith, w.sized);
        }),
        refl,
      )
