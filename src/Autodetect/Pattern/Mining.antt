-- ===== src/Autodetect/Pattern/Mining.antt =====
-- What MinePatterns of internal/autodetect/pattern.go finds in a snapshot.
use mathlib.Core.List.{Memᴰ}
use text.Mathlib.TextLemmas.{nil-append, cons-append}
use Prim.Native.String.{◌++◌, ◌∷◌ as ◌cons◌}
use rca_operator.Base.Join.{lacks, split_at_separator}
use rca_operator.RuleEngine.Scope.{extract_base}
use rca_operator.Watcher.Event.Cluster.{BaseEvent}
use rca_operator.Watcher.Event.{type_name}
use rca_operator.Base.{
  test_fails, String, ◌≡◌, refl, sym, ap, subst, ◌∙◌, true, List, [], All, ◌==◌, ◌∷◌, ◌≢◌, ◌⊎◌, inl,
  inr, arith, Bool-cases, eq→path,
}
use rca_operator.Base.Members.{All-within, All-Memᴰ}
use rca_operator.Base.Texts.{str_lt}
use rca_operator.Correlator.Buffer.{Entry}
use rca_operator.Autodetect.Pattern.{
  BaseEntry, EventPair, extract_entries, pod_key, is_valid_scope_pair, mine_patterns,
}
use rca_operator.Autodetect.Pattern.Pairs.{place, IsPaired, mine_patterns-IsPaired}

-- The two signals stand at one place: in one pod, on one node or in one namespace.
abbrev pub AreNear : String → BaseEvent → BaseEvent → Type 0
AreNear scope a b =
    ((scope ≡ "samePod") × (a.namespace ≡ b.namespace) × (a.pod_name ≡ b.pod_name))
    ⊎ (((scope ≡ "sameNode") × (a.node_name ≡ b.node_name))
        ⊎ ((scope ≡ "sameNamespace") × (a.namespace ≡ b.namespace)))

-- An entry of the buffer with a signal of the type, which is no lifecycle signal.
pub record IsOfType (entries : List Entry) (type : String) (x : Entry) : Type 0 where
  pub buffered : Memᴰ x entries
  pub typed : type_name x.event ≡ type
  pub not_healthy : type ≢ "PodHealthy"
  pub not_deleted : type ≢ "PodDeleted"

-- The pair comes from two entries of the buffer at one place.
pub record IsMined (entries : List Entry) (pair : EventPair) : Type 0 where
  pub trigger : Entry
  pub condition : Entry
  pub triggers : IsOfType entries pair.trigger_type trigger
  pub conditions : IsOfType entries pair.condition_type condition
  pub near : AreNear pair.scope (extract_base trigger.event) (extract_base condition.event)
  pub ordered : str_lt pair.trigger_type pair.condition_type ≡ true
  pub fits : is_valid_scope_pair pair ≡ true

record IsExtracted (entries : List Entry) (e : BaseEntry) : Type 0 where
  entry : Entry
  of_type : IsOfType entries e.event_type entry
  base : e.base ≡ extract_base entry.event

extract_entries-IsExtracted :
    (all entries : List Entry)
    → ((x : Entry) → Memᴰ x entries → Memᴰ x all)
    → All (IsExtracted all) (extract_entries entries)
unfolding extract_entries
extract_entries-IsExtracted all [] part = tt
extract_entries-IsExtracted all (x ∷ entries) part =
    let rest = extract_entries-IsExtracted all entries (λ y m. part y (Memᴰ.tail m)) in
    elim (Bool-cases (type_name x.event == "PodHealthy")) [
      | inl healthy ↦ rw healthy rest
      | inr other ↦ elim (Bool-cases (type_name x.event == "PodDeleted")) [
        | inl deleted ↦ rw (other, deleted) rest
        | inr another ↦
            let one : IsExtracted all
                (record { base = extract_base x.event; event_type = type_name x.event }) =
              record {
                entry = x;
                of_type = record {
                  buffered = part x (Memᴰ.head refl);
                  typed = refl;
                  not_healthy = test_fails _ _ other;
                  not_deleted = test_fails _ _ another;
                };
                base = refl;
              } in
            rw (other, another) (one, rest)
      ]
    ]

key_parts : (e : BaseEntry) → pod_key e ≡ e.base.namespace ++ (":" cons e.base.pod_name)
key_parts e =
    ap (λ s. e.base.namespace ++ s)
      (cons-append ":" "" e.base.pod_name ∙ ap (λ s. ":" cons s) (nil-append e.base.pod_name))

-- a scope that fits is one of three
place-AreNear :
    (pair : EventPair) (e f : BaseEntry)
    → is_valid_scope_pair pair ≡ true
    → lacks ":" e.base.namespace ≡ true
    → lacks ":" f.base.namespace ≡ true
    → place pair.scope e ≡ place pair.scope f
    → AreNear pair.scope e.base f.base
unfolding is_valid_scope_pair
place-AreNear pair e f valid clear clear' near = elim (Bool-cases (pair.scope == "samePod")) [
  | inl pod ↦
      let one_key : pod_key e ≡ pod_key f = ground (arith, pod, near) in
      let (ns, name) =
        split_at_separator ":" e.base.namespace f.base.namespace e.base.pod_name f.base.pod_name
          clear clear' (sym (key_parts e) ∙ one_key ∙ key_parts f) in
      inl (eq→path _ _ pod, ns, name)
  | inr no_pod ↦ elim (Bool-cases (pair.scope == "sameNode")) [
    | inl node ↦ inr (inl (eq→path _ _ node, ground (arith, no_pod, node, near)))
    | inr no_node ↦ elim (Bool-cases (pair.scope == "sameNamespace")) [
      | inl namespace ↦ inr (inr (eq→path _ _ namespace, ground (arith, no_pod, no_node, near)))
      | inr none ↦ absurd (ground (arith, no_pod, no_node, none, valid))
    ]
  ]
]

-- Every pair that is mined from a snapshot comes from two entries of the buffer that are no
-- lifecycle signals and stand at one place: in one pod of one namespace, on one node or in one
-- namespace, as the scope of the pair says, where no namespace has a colon in its name. Their types
-- are those of the pair, the trigger's is before the condition's, and the scope fits both.
pub mine_patterns-IsMined :
    (entries : List Entry)
    → ((x : Entry) → Memᴰ x entries → lacks ":" (extract_base x.event).namespace ≡ true)
    → All (IsMined entries) (mine_patterns entries)
mine_patterns-IsMined entries clear =
    All-within (IsMined entries) (mine_patterns entries) (λ pair m.
      let (e, f, e_in, f_in, i, j, near, less, valid) =
        All-Memᴰ (IsPaired entries) (mine_patterns entries) pair (mine_patterns-IsPaired entries)
          m in
      let all = extract_entries-IsExtracted entries entries (λ x k. k) in
      let a = All-Memᴰ (IsExtracted entries) (extract_entries entries) e all e_in in
      let b = All-Memᴰ (IsExtracted entries) (extract_entries entries) f all f_in in
      record {
        trigger = a.entry;
        condition = b.entry;
        triggers = subst (λ t. IsOfType entries t a.entry) i a.of_type;
        conditions = subst (λ t. IsOfType entries t b.entry) j b.of_type;
        near =
            subst (λ x. AreNear pair.scope x (extract_base b.entry.event)) a.base
              (subst (λ x. AreNear pair.scope e.base x) b.base
                (place-AreNear pair e f valid
                  (subst (λ x. lacks ":" x.namespace ≡ true) (sym a.base)
                    (clear a.entry a.of_type.buffered))
                  (subst (λ x. lacks ":" x.namespace ≡ true) (sym b.base)
                    (clear b.entry b.of_type.buffered))
                  near));
        ordered = less;
        fits = valid;
      })
