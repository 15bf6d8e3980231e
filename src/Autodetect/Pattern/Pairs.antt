-- ===== src/Autodetect/Pattern/Pairs.antt =====
-- What MinePatterns of internal/autodetect/pattern.go makes of the extracted entries.
use mathlib.Core.List.{Memᴰ}
use rca_operator.Base.{
  String, Bool, ◌≡◌, refl, sym, subst, ◌∙◌, true, false, List, [], All, if◌then◌else◌, ◌==◌, ◌&&◌,
}
use rca_operator.Base.Members.{All-within}
use rca_operator.Base.Texts.{str_lt}
use rca_operator.Correlator.Buffer.{Entry}
use rca_operator.Autodetect.Pattern.{
  BaseEntry, EventPair, Mined, extract_entries, group_entries, emit_pairs, in_pod, on_node,
  in_workload, pod_key, is_valid_scope_pair, is_pod_event_type, is_node_event_type,
  is_workload_event_type, mine_patterns,
}
use rca_operator.Autodetect.Pattern.Groups.{group_entries-Groups, emit_pairs-All}

-- the place that a scope compares
abbrev pub place : String → BaseEntry → String
place scope e =
    if scope == "samePod"
    then pod_key e
    else if scope == "sameNode"
    then e.base.node_name
    else e.base.namespace

-- Two extracted entries at one place have the two types of the pair, which are in order, differ
-- and fit the scope.
abbrev pub IsPaired : List Entry → EventPair → Type 0
IsPaired entries pair =
    (e : BaseEntry) × (f : BaseEntry) × Memᴰ e (extract_entries entries)
    × Memᴰ f (extract_entries entries)
    × (e.event_type ≡ pair.trigger_type)
    × (f.event_type ≡ pair.condition_type)
    × (place pair.scope e ≡ place pair.scope f)
    × (str_lt pair.trigger_type pair.condition_type ≡ true)
    × (is_valid_scope_pair pair ≡ true)

and_left : (a b : Bool) → (a && b) ≡ true → a ≡ true
and_left true b h = refl
and_left false b h = h

module _ (entries : List Entry) where
  abbrev Taken : (BaseEntry → Bool) → (BaseEntry → String) → String → BaseEntry → Type 0
  Taken takes key k e = Memᴰ e (extract_entries entries) × (takes e ≡ true) × (key e ≡ k)

  module _ (scope : String) (takes : BaseEntry → Bool) (key : BaseEntry → String) where
    emitted-IsPaired :
        (m : Mined)
        → ((e f : BaseEntry)
            → takes e ≡ true
            → takes f ≡ true
            → key e ≡ key f
            → (place scope e ≡ place scope f)
              × (is_valid_scope_pair (record {
                trigger_type = e.event_type;
                condition_type = f.event_type;
                scope = scope;
              })
                  ≡ true))
        → All (IsPaired entries) m.pairs
        → All
            (IsPaired entries)
            (emit_pairs scope (group_entries takes key (extract_entries entries) []) m).pairs
    emitted-IsPaired m fits h =
        emit_pairs-All (Taken takes key) scope (IsPaired entries)
          (group_entries takes key (extract_entries entries) []) m
          (λ k s t (e, (a, b, c), i) (f, (d, g, j), l) less.
            let (near, valid) = fits e f b g (c ∙ sym j) in
            (
              e,
              f,
              a,
              d,
              i,
              l,
              near,
              less,
              subst
                  (λ u.
                    is_valid_scope_pair
                      (record { trigger_type = s; condition_type = u; scope = scope })
                    ≡ true)
                  l
                  (subst
                    (λ u.
                      is_valid_scope_pair
                        (record { trigger_type = u; condition_type = f.event_type; scope = scope })
                      ≡ true)
                    i valid),
            ))
          (group_entries-Groups (Taken takes key) takes key (extract_entries entries) []
            (All-within _ (extract_entries entries) (λ e m t. (m, t, refl))) tt)
          h

  pub mine_patterns-IsPaired : All (IsPaired entries) (mine_patterns entries)
  unfolding mine_patterns is_valid_scope_pair
  mine_patterns-IsPaired =
      emitted-IsPaired "sameNamespace" in_workload (λ e. e.base.namespace) _
        (λ e f a b c. (
          c,
          rw
              (
                and_left (is_workload_event_type e.event_type) _ a,
                and_left (is_workload_event_type f.event_type) _ b,
              )
              refl,
        ))
        (emitted-IsPaired "sameNode" on_node (λ e. e.base.node_name) _
          (λ e f a b c. (
            c,
            rw
                (
                  and_left (is_node_event_type e.event_type) _ a,
                  and_left (is_node_event_type f.event_type) _ b,
                )
                refl,
          ))
          (emitted-IsPaired "samePod" in_pod pod_key _
            (λ e f a b c. (
              c,
              rw
                  (
                    and_left (is_pod_event_type e.event_type) _ a,
                    and_left (is_pod_event_type f.event_type) _ b,
                  )
                  refl,
            ))
            tt))
