-- ===== src/Stack/Inv.antt =====
-- The invariant of a stack and its threads.
use chat_server_mt.Base.{
  ℕ, ◌+◌, ◌%◌, ◌^◌, ◌≤◌, ◌<◌, ◌≡◌, refl, sym, subst, ap₂, List, [], ◌∷◌, ◌++◌, arith, length, map,
}
use chat_server_mt.Stack.{
  Shared, push_data, push_top, push_next, push_cas, push_size, pop_top, pop_next, pop_cas, pop_size,
  pop_data, pop_free, Pc, pushing, popping, finished, Label, quiet, empty, pushes, pops, update,
  Outcome,
}
use chat_server_mt.Stack.Threads.{times_in, owns, total, Linked}

-- What a thread remembers holds as long as the top has not changed since.
abbrev pub IsTop : Shared → ℕ → ℕ → Type 0
IsTop m a t = (t ≤ m.tag) × (t ≡ m.tag → a ≡ m.top)

abbrev pub Ok : Shared → Pc → Type 0
Ok m (pushing (push_data a v)) = 0 < a
Ok m (pushing (push_top a v)) = (0 < a) × (m.cell a ≡ v)
Ok m (pushing (push_next a v o t)) = (0 < a) × (m.cell a ≡ v) × IsTop m o t
Ok m (pushing (push_cas a v o t)) = (0 < a) × (m.cell a ≡ v) × IsTop m o t × (m.next a ≡ o)
Ok m (pushing push_size) = Unit {0}
Ok m (popping pop_top) = Unit {0}
Ok m (popping (pop_next a t)) = (0 < a) × IsTop m a t
Ok m (popping (pop_cas a t n)) = (0 < a) × IsTop m a t × (t ≡ m.tag → n ≡ m.next a)
Ok m (popping (pop_size a v)) = m.cell a ≡ v
Ok m (popping (pop_data a v)) = m.cell a ≡ v
Ok m (popping (pop_free a v)) = m.cell a ≡ v
Ok m finished = Unit {0}

abbrev pub AllOk : Shared → List Pc → Type 0
AllOk m [] = Unit {0}
AllOk m (pc ∷ pcs) = Ok m pc × AllOk m pcs

-- Who has still to count a node in, or out.
abbrev pub enters : Pc → ℕ
enters (pushing push_size) = 1
enters _ = 0

abbrev pub leaves : Pc → ℕ
leaves (popping (pop_size a v)) = 1
leaves _ = 0

-- `xs` are the nodes of the stack, from the top.
pub record Inv (m : Shared) (xs : List ℕ) (pcs : List Pc) : Type 0 where
  pub linked : Linked m.next m.top xs
  pub apart : (a : ℕ) → times_in a xs + total (owns a) pcs ≤ 1
  pub ok : AllOk m pcs
  pub sized : (m.size + total enters pcs) % 2 ^ 64 ≡ (length xs + total leaves pcs) % 2 ^ 64

-- What a step is for a list of values.
abbrev pub Follows : Label → List ℕ → List ℕ → Type 0
Follows quiet vs ws = ws ≡ vs
Follows empty vs ws = (vs ≡ []) × (ws ≡ [])
Follows (pushes v) vs ws = ws ≡ v ∷ vs
Follows (pops v) vs ws = vs ≡ v ∷ ws

-- A step keeps the invariant, for the nodes that are in the stack then.
abbrev pub Keeps : List ℕ → Shared → (before after : List Pc) → Outcome → Type 0
Keeps xs m before after (l, m', pc') =
    (ys : List ℕ) × Inv m' ys (before ++ pc' ∷ after) × Follows l (map m.cell xs) (map m'.cell ys)

module _ (a v : ℕ) where
  -- A write to a node that is not in the list.
  pub Linked-update :
      (next : ℕ → ℕ) (p : ℕ) (xs : List ℕ)
      → times_in a xs ≡ 0
      → Linked next p xs
      → Linked (update next a v) p xs
  unfolding update
  Linked-update next p [] h l = l
  Linked-update next p (x ∷ xs) h l =
      let same : update next a v x ≡ next x = ground (arith, h) in
      (
        l.0,
        l.1,
        subst (λ q. Linked (update next a v) q xs) (sym same)
            (Linked-update next (next x) xs (ground (arith, h)) l.2),
      )

  pub map-update :
      (cell : ℕ → ℕ) (xs : List ℕ) → times_in a xs ≡ 0 → map (update cell a v) xs ≡ map cell xs
  unfolding update
  map-update cell [] h = refl
  map-update cell (x ∷ xs) h =
      ap₂ (λ y ys. y ∷ ys) (ground (arith, h)) (map-update cell xs (ground (arith, h)))

-- The top of a stack that is not empty is its first node.
pub times_in-top :
    (next : ℕ → ℕ) (p : ℕ) (xs : List ℕ) → Linked next p xs → 0 < p → 1 ≤ times_in p xs
times_in-top next p [] l h = ground (arith, l)
times_in-top next p (x ∷ xs) l h = ground (arith, l.0)
