-- ===== src/Stack/Rebuild.antt =====
-- One thread among the others: what the invariant says of it, and how to have it again.
use chat_server_mt.Base.{
  ℕ, ◌+◌, ◌%◌, ◌^◌, ◌≤◌, ◌<◌, ◌≡◌, List, [], ◌∷◌, ◌++◌, arith, length, if◌then◌else◌, ◌==◌, Bool,
  true, false, refl,
}
use chat_server_mt.Stack.{Shared, Pc, update, is_top, Outcome}
use chat_server_mt.Stack.Threads.{times_in, owns, total, total-append, Linked}
use chat_server_mt.Stack.Inv.{Ok, AllOk, Inv, enters, leaves, IsTop, Keeps}

AllOk-split : (m : Shared) (ps qs : List Pc) → AllOk m (ps ++ qs) → AllOk m ps × AllOk m qs
AllOk-split m [] qs h = (tt, h)
AllOk-split m (p ∷ ps) qs h = let w = AllOk-split m ps qs h.1 in ((h.0, w.0), w.1)

AllOk-append : (m : Shared) (ps qs : List Pc) → AllOk m ps → AllOk m qs → AllOk m (ps ++ qs)
AllOk-append m [] qs h k = k
AllOk-append m (p ∷ ps) qs h k = (h.0, AllOk-append m ps qs h.1 k)

-- What the invariant says of a thread and of the others.
pub record Around (m : Shared) (xs : List ℕ) (before : List Pc) (pc : Pc) (after : List Pc)
    : Type 0 where
  pub linked : Linked m.next m.top xs
  pub mine : Ok m pc
  pub front : AllOk m before
  pub back : AllOk m after
  pub apart : (a : ℕ) → times_in a xs + owns a pc + total (owns a) before + total (owns a) after ≤ 1
  pub sized :
      (m.size + enters pc + (total enters before + total enters after)) % 2 ^ 64
      ≡ (length xs + leaves pc + (total leaves before + total leaves after)) % 2 ^ 64

pub Inv-Around :
    (m : Shared) (xs : List ℕ) (before : List Pc) (pc : Pc) (after : List Pc)
    → Inv m xs (before ++ pc ∷ after)
    → Around m xs before pc after
Inv-Around m xs before pc after i =
    let w = AllOk-split m before (pc ∷ after) i.ok in
    record {
      linked = i.linked;
      mine = w.1.0;
      front = w.0;
      back = w.1.1;
      apart = λ a. omega (arith, i.apart a, total-append (owns a) before (pc ∷ after));
      sized = omega (
        arith,
        i.sized,
        total-append enters before (pc ∷ after),
        total-append leaves before (pc ∷ after),
      );
    }

pub Around-Inv :
    (m : Shared) (xs : List ℕ) (before : List Pc) (pc : Pc) (after : List Pc)
    → Around m xs before pc after
    → Inv m xs (before ++ pc ∷ after)
Around-Inv m xs before pc after w = record {
  linked = w.linked;
  apart = λ a. omega (arith, w.apart a, total-append (owns a) before (pc ∷ after));
  ok = AllOk-append m before (pc ∷ after) w.front (w.mine, w.back);
  sized = omega (
    arith,
    w.sized,
    total-append enters before (pc ∷ after),
    total-append leaves before (pc ∷ after),
  );
}

module _ {m : Shared} {xs : List ℕ} {before after : List Pc} {pc : Pc}
    (w : Around m xs before pc after) where
  -- The node of a thread is in no other place.
  pub alone :
      (a : ℕ)
      → owns a pc ≡ 1
      → (times_in a xs ≡ 0) × (total (owns a) before ≡ 0) × (total (owns a) after ≡ 0)
  alone a h = (omega (arith, w.apart a), omega (arith, w.apart a), omega (arith, w.apart a))

  -- A step that leaves the memory as it is.
  pub moves :
      (pc' : Pc)
      → ((a : ℕ) → owns a pc' ≤ owns a pc)
      → enters pc' ≡ enters pc
      → leaves pc' ≡ leaves pc
      → Ok m pc'
      → Around m xs before pc' after
  moves pc' o e l mine = record {
    linked = w.linked;
    mine = mine;
    front = w.front;
    back = w.back;
    apart = λ a. omega (arith, w.apart a, o a);
    sized = omega (arith, w.sized, e, l);
  }

pub owns_self : (a : ℕ) → ◌≡◌ {A = ℕ} (if a == a then 1 else 0) 1
owns_self a = ground arith

pub update_self : (f : ℕ → ℕ) (a v : ℕ) → update f a v a ≡ v
unfolding update
update_self f a v = ground arith

module _ (xs : List ℕ) (m : Shared) (before after : List Pc) (x y : Outcome) where
  -- A test of the top, by the cases of the test.
  pub by_test :
      (b : Bool)
      → (b ≡ true → Keeps xs m before after x)
      → (b ≡ false → Keeps xs m before after y)
      → Keeps xs m before after (if b then x else y)
  by_test true f g = f refl
  by_test false f g = g refl

-- Within 2^17 changes the test finds a tag that has not changed.
pub is_top-same :
    (m : Shared) (a t : ℕ)
    → is_top a t m ≡ true
    → IsTop m a t
    → m.tag < t + 2 ^ 17
    → (t ≡ m.tag) × (a ≡ m.top)
is_top-same m a t e h recent =
    let same : t ≡ m.tag = ground (arith, e, h, recent) in (same, h.1 same)
