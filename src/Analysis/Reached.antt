-- ===== src/Analysis/Reached.antt =====
-- analysis.ts: the modules that are found are those from which signal reaches a start.
use vcv_rack_mcp.Prelude.{
  ℕ, zero, suc, ◌+◌, ◌≤◌, ◌≡◌, refl, ◌↔◌, ◌⊎◌, inl, inr, String, true, false, List, [], ◌∷◌, some,
  str_eq, eq_iff, eq_refl, filter, length, ◌||◌, any, arith, Bool-cases, subst, sym, ap, ◌∙◌,
}
use vcv_rack_mcp.Analysis.{
  Cable, Snapshot, mem, incoming_cables, group_incoming, push_sources, push_all, trace, trace_back,
  destinations, modules_feeding_destinations, ancestors,
}
use vcv_rack_mcp.Analysis.Trace.{enters, incoming-group_all}
use vcv_rack_mcp.Analysis.Fuel.{
  unseen, leaves, unseen-cons, length-push_sources, length-push_all, mem-push_sources, mem-push_all,
  unseen-nothing,
}

abbrev pub In : {A : Type 0} → A → List A → Type 0
In x [] = ⊥
In x (y ∷ ys) = (y ≡ x) ⊎ In x ys

-- Signal from the module reaches a start, over the cables.
pub data IsReached (cables : List Cable) (starts : List String) : String → Type 0 where
  start : (id : String) → mem id starts ≡ true → IsReached cables starts id
  through :
      (c : Cable)
      → In c cables
      → IsReached cables starts c.input_module_id
      → IsReached cables starts c.output_module_id

-- A source among the cables into a module is that of a cable into it, and conversely.
source_of :
    (x id : String) (cables : List Cable)
    → any (leaves x) (filter (enters id) cables) ≡ true
    → (c : Cable) × In c cables × (c.input_module_id ≡ id) × (c.output_module_id ≡ x)
source_of x id [] e = absurd (cc)
source_of x id (c ∷ cables) e = elim (Bool-cases (enters id c)) [
  | inr other ↦
      let (d, there, to, from) = source_of x id cables (ground (arith, other, e)) in
      (d, inr there, to, from)
  | inl here ↦ elim (Bool-cases (leaves x c)) [
    | inl this ↦
        (c, inl refl, (eq_iff c.input_module_id id).0 here, (eq_iff c.output_module_id x).0 this)
    | inr that ↦
        let (d, there, to, from) = source_of x id cables (ground (arith, here, that, e)) in
        (d, inr there, to, from)
  ]
]

is_source :
    (c : Cable) (id : String) (cables : List Cable)
    → In c cables
    → c.input_module_id ≡ id
    → any (leaves c.output_module_id) (filter (enters id) cables) ≡ true
is_source c id [] there to = absurd there
is_source c id (d ∷ cables) (inl same) to =
    let e : d.input_module_id ≡ id = ground (arith, same, to) in
    let f : d.output_module_id ≡ c.output_module_id = ap (λ (x : Cable). x.output_module_id) same in
    ground (arith, e, f, eq_iff d.input_module_id id, eq_iff d.output_module_id c.output_module_id)
is_source c id (d ∷ cables) (inr there) to =
    let rest = is_source c id cables there to in
    elim (Bool-cases (enters id d)) [
      | inl here ↦ ground (arith, here, rest)
      | inr other ↦ ground (arith, other, rest)
    ]

module _ (incoming : List (String × List Cable)) where
  trace-empty : (fuel : ℕ) (reached : List String) → trace incoming fuel [] reached ≡ some reached
  unfolding trace
  trace-empty fuel reached = refl

  trace-seen :
      (fuel : ℕ) (id : String) (stack reached : List String)
      → mem id reached ≡ true
      → trace incoming (suc fuel) (id ∷ stack) reached ≡ trace incoming fuel stack reached
  unfolding trace
  trace-seen fuel id stack reached seen = rw (seen, trace) refl

  trace-new :
      (fuel : ℕ) (id : String) (stack reached : List String)
      → mem id reached ≡ false
      → trace incoming (suc fuel) (id ∷ stack) reached
        ≡ trace incoming fuel (push_sources (incoming_cables id incoming) stack) (id ∷ reached)
  unfolding trace
  trace-new fuel id stack reached new = rw (new, trace) refl

module _ (cables : List Cable) (starts : List String) where
  -- Every id in the list is one that signal reaches a start from.
  abbrev AllReached : List String → Type 0
  AllReached ids = (x : String) → mem x ids ≡ true → IsReached cables starts x

  -- The source of every cable into a module of the list is in the list or on the stack.
  abbrev IsClosed : (stack reached : List String) → Type 0
  IsClosed stack reached =
      (c : Cable)
      → In c cables
      → mem c.input_module_id reached ≡ true
      → (mem c.output_module_id reached || mem c.output_module_id stack) ≡ true

  -- What the loop makes of a stack and a set.
  record IsTraced (stack reached : List String) (fuel : ℕ) : Type 0 where
    found : List String
    ends : trace (group_incoming cables []) fuel stack reached ≡ some found
    sound : AllReached found
    kept : (x : String) → (mem x reached || mem x stack) ≡ true → mem x found ≡ true
    closed : IsClosed [] found

  pushed-Reached :
      (id : String) (stack : List String)
      → AllReached (id ∷ stack)
      → AllReached (push_sources (filter (enters id) cables) stack)
  pushed-Reached id stack all x e =
      let split = mem-push_sources x (filter (enters id) cables) stack in
      elim (Bool-cases (any (leaves x) (filter (enters id) cables))) [
        | inl source ↦
            let (c, there, to, from) = source_of x id cables source in
            let into : IsReached cables starts c.input_module_id =
              subst (IsReached cables starts) (sym to) (all id (ground (arith, eq_refl id))) in
            subst (IsReached cables starts) from (through c there into)
        | inr other ↦ all x (ground (arith, split, other, e))
      ]

  pushed-IsClosed :
      (id : String) (stack reached : List String)
      → IsClosed (id ∷ stack) reached
      → IsClosed (push_sources (filter (enters id) cables) stack) (id ∷ reached)
  pushed-IsClosed id stack reached closed c there in_ =
      let split = mem-push_sources c.output_module_id (filter (enters id) cables) stack in
      elim (Bool-cases (str_eq id c.input_module_id)) [
        | inl this ↦
            let source = is_source c id cables there (sym ((eq_iff id c.input_module_id).0 this)) in
            ground (arith, split, source)
        | inr other ↦
            let old = closed c there (ground (arith, other, in_)) in ground (arith, split, old)
      ]

  trace-IsTraced :
      (fuel : ℕ) (stack reached : List String)
      → length stack + unseen reached cables ≤ fuel
      → AllReached stack
      → AllReached reached
      → IsClosed stack reached
      → IsTraced stack reached fuel
  trace-IsTraced fuel [] reached enough all done closed = record {
    found = reached;
    ends = trace-empty (group_incoming cables []) fuel reached;
    sound = done;
    kept = λ x e. ground (arith, e);
    closed = closed;
  }
  trace-IsTraced zero (id ∷ stack) reached enough all done closed = absurd (ground (arith, enough))
  trace-IsTraced (suc fuel) (id ∷ stack) reached enough all done closed =
      elim (Bool-cases (mem id reached)) [
        | inl seen ↦
            let rest =
              trace-IsTraced fuel stack reached (ground (arith, enough))
                (λ x e. all x (ground (arith, e))) done
                (λ c there in_.
                  let old = closed c there in_ in
                  ground (arith, old, seen, eq_iff id c.output_module_id)) in
            record {
              found = rest.found;
              ends = trace-seen (group_incoming cables []) fuel id stack reached seen ∙ rest.ends;
              sound = rest.sound;
              kept = λ x e. rest.kept x (ground (arith, e, seen, eq_iff id x));
              closed = rest.closed;
            }
        | inr new ↦
            let into = filter (enters id) cables in
            let rest =
              trace-IsTraced fuel (push_sources into stack) (id ∷ reached)
                (let a = unseen-cons id reached cables new in
                  let b = length-push_sources into stack in ground (arith, enough, a, b))
                (pushed-Reached id stack all)
                (λ x e. elim (Bool-cases (mem x reached)) [
                  | inl old ↦ done x old
                  | inr other ↦ all x (ground (arith, e, other))
                ])
                (pushed-IsClosed id stack reached closed) in
            record {
              found = rest.found;
              ends =
                  trace-new (group_incoming cables []) fuel id stack reached new
                  ∙ ap
                      (λ l.
                        trace (group_incoming cables []) fuel (push_sources l stack) (id ∷ reached))
                      (incoming-group_all cables id)
                  ∙ rest.ends;
              sound = rest.sound;
              kept = λ x e.
                  rest.kept x
                    (let split = mem-push_sources x into stack in ground (arith, e, split));
              closed = rest.closed;
            }
      ]

  reached-mem :
      (found : List String)
      → ((x : String) → mem x starts ≡ true → mem x found ≡ true)
      → IsClosed [] found
      → (x : String) → IsReached cables starts x
      → mem x found ≡ true
  reached-mem found begin closed _ (start x begun) = begin x begun
  reached-mem found begin closed _ (through c there from) =
      let into = reached-mem found begin closed c.input_module_id from in
      let out = closed c there into in ground (arith, out)

  -- The search ends within the fuel given, and finds exactly the modules from which signal reaches a
  -- start over the cables, the starts among them.
  pub trace_back-IsReached_iff :
      (found : List String) × (trace_back cables starts ≡ some found)
      × ((x : String) → (mem x found ≡ true) ↔ IsReached cables starts x)
  unfolding trace_back
  trace_back-IsReached_iff =
      let begin =
        trace-IsTraced (length starts + length cables) (push_all starts []) []
          (let a = length-push_all starts [] in
            let b = unseen-nothing cables in ground (arith, a, b))
          (λ x e. start x (let split = mem-push_all x starts [] in ground (arith, split, e)))
          (λ x e. absurd (ground (arith, e))) (λ c there e. absurd (ground (arith, e))) in
      (
        begin.found,
        begin.ends,
        λ x. (
          begin.sound x,
          reached-mem begin.found
              (λ y e.
                begin.kept y (let split = mem-push_all y starts [] in ground (arith, split, e)))
              begin.closed x,
        ),
      )

-- The search over the cables ends, and finds exactly the modules from which signal reaches an audio
-- destination of the snapshot, the destinations themselves among them.
pub modules_feeding_destinations-IsReached_iff :
    {N : Type 0} (snap : Snapshot N)
    → (found : List String) × (modules_feeding_destinations snap ≡ some found)
      × ((x : String) → (mem x found ≡ true) ↔ IsReached snap.cables (destinations snap) x)
unfolding modules_feeding_destinations
modules_feeding_destinations-IsReached_iff snap =
    trace_back-IsReached_iff snap.cables (destinations snap)

-- For each destination, the search that describes what feeds it ends, and finds exactly the modules
-- from which signal reaches it.
pub ancestors-IsReached_iff :
    {N : Type 0} (snap : Snapshot N) (destination : String)
    → (found : List String) × (ancestors snap destination ≡ some found)
      × ((x : String) → (mem x found ≡ true) ↔ IsReached snap.cables (destination ∷ []) x)
unfolding ancestors
ancestors-IsReached_iff snap destination = trace_back-IsReached_iff snap.cables (destination ∷ [])
