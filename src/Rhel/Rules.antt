-- ===== src/Rhel/Rules.antt =====
-- What becomes of the routing policies: the files rule-* and rule6-* share them out.
use mathlib.Core.Bool.{false≢true}
use mathlib.Core.List.Memᴰ
use netwrangler.Base.{
  ◌+◌, Bool, true, false, ◌≡◌, refl, sym, ap, ◌∙◌, ◌↔◌, ◌⊎◌, inl, inr, Option, none, some, List, [],
  ◌∷◌, Memᴰ, Memᴰ-cons, All, length, arith, Option-cases, ⊎_elim, some_cancel,
}
use netwrangler.Net.{Gnet, IpNet, is_ip4}
use netwrangler.Layout.{Network, RoutePolicy}
use netwrangler.Layout.Networks.{network_validate}
use netwrangler.Layout.Networks.Laws.{IsValidPolicy, network_validate_iff}
use netwrangler.Rhel.Networks.{rule_family, rules_of, take_if}

take_if_iff :
    (o : Option Bool) (ip4 : Bool) (p r : RoutePolicy) (rest : List RoutePolicy)
    → Memᴰ r (take_if o ip4 p rest) ↔ ((r ≡ p) × (o ≡ some ip4) ⊎ Memᴰ r rest)
take_if_iff none ip4 p r rest = (inr, ⊎_elim (λ (e, h). absurd (cc h)) (λ m. m))
take_if_iff (some true) true p r rest = ground (arith, Memᴰ-cons r p rest)
take_if_iff (some true) false p r rest = (inr, ⊎_elim (λ (e, h). absurd (cc h)) (λ m. m))
take_if_iff (some false) true p r rest = (inr, ⊎_elim (λ (e, h). absurd (cc h)) (λ m. m))
take_if_iff (some false) false p r rest = ground (arith, Memᴰ-cons r p rest)

rules_of_iff :
    (ip4 : Bool) (r : RoutePolicy) (ps : List RoutePolicy)
    → Memᴰ r (rules_of ip4 ps) ↔ (Memᴰ r ps × (rule_family r ≡ some ip4))
unfolding rules_of
rules_of_iff ip4 r [] = (λ m. absurd (Memᴰ.not-nil m), λ h. absurd (Memᴰ.not-nil h.0))
rules_of_iff ip4 r (p ∷ ps) =
    let (to, from) = take_if_iff (rule_family p) ip4 p r (rules_of ip4 ps) in
    let (later, sooner) = rules_of_iff ip4 r ps in
    (
      λ m.
          ⊎_elim (λ (e, h). (Memᴰ.head e, ap rule_family e ∙ h))
            (λ rest. (Memᴰ.tail (later rest).0, (later rest).1)) (to m),
      λ (m, h). from (
          ⊎_elim (λ e. inl (e, ap rule_family (sym e) ∙ h)) (λ old. inr (sooner (old, h)))
            (Memᴰ.cases_cons m)),
    )

take_if-length :
    (b : Bool) (p : RoutePolicy) (rest4 rest6 : List RoutePolicy)
    → length (take_if (some b) true p rest4) + length (take_if (some b) false p rest6)
      ≡ 1 + (length rest4 + length rest6)
take_if-length true p rest4 rest6 = omega arith
take_if-length false p rest4 rest6 = omega arith

family_of : (r : RoutePolicy) → IsValidPolicy r → (b : Bool) × (rule_family r ≡ some b)
unfolding rule_family
family_of r valid = elim (Option-cases r.from) [
  | inr (from, set) ↦ (is_ip4 from.ip, rw set refl)
  | inl unset ↦ elim (Option-cases r.to) [
    | inr (to, set) ↦ (is_ip4 to.ip, rw (unset, set) refl)
    | inl bare ↦
        absurd (
          ⊎_elim (λ (h, k). false≢true (rw unset at h)) (λ (h, k). false≢true (rw bare at k)) valid)
  ]
]

length-rules_of :
    (ps : List RoutePolicy)
    → All IsValidPolicy ps
    → length (rules_of true ps) + length (rules_of false ps) ≡ length ps
unfolding rules_of
length-rules_of [] h = refl
length-rules_of (p ∷ ps) (valid, h) =
    let (b, family) = family_of p valid in
    rw family (
      omega
        (arith, take_if-length b p (rules_of true ps) (rules_of false ps), length-rules_of ps h))

-- The end that decides about a policy: the source if it has one, or else the destination.
abbrev pub IsDecidedBy : RoutePolicy → IpNet → Type 0
IsDecidedBy r a = (r.from ≡ some a) ⊎ (r.from ≡ none) × (r.to ≡ some a)

-- A policy for IPv4, if the end that decides has an IPv4 address, and for IPv6 if it has none.
abbrev pub IsFor : Bool → RoutePolicy → Type 0
IsFor ip4 r = (a : IpNet) × IsDecidedBy r a × (is_ip4 a.ip ≡ ip4)

rule_family_iff : (ip4 : Bool) (r : RoutePolicy) → (rule_family r ≡ some ip4) ↔ IsFor ip4 r
unfolding rule_family
rule_family_iff ip4 r = elim (Option-cases r.from) [
  | inr (from, set) ↦ rw set (
    λ h. (from, inl refl, some_cancel h),
    λ (a, decided, family).
        ⊎_elim (λ e. ap (λ x. some (is_ip4 x.ip)) (some_cancel e) ∙ ap some family)
          (λ (e, k). absurd (cc e)) decided,
  )
  | inl unset ↦ elim (Option-cases r.to) [
    | inr (to, set) ↦
        rw (unset, set)
          (
            λ h. (to, inr (refl, refl), some_cancel h),
            λ (a, decided, family).
                ⊎_elim (λ e. absurd (cc e))
                  (λ (k, e). ap (λ x. some (is_ip4 x.ip)) (some_cancel e) ∙ ap some family) decided,
          )
    | inl bare ↦
        rw (unset, bare)
          (
            λ h. absurd (cc h),
            λ (a, decided, family). ⊎_elim (λ e. absurd (cc e)) (λ (k, e). absurd (cc e)) decided,
          )
  ]
]

-- In an accepted network the rules for IPv4 are the policies whose source, or, where they have
-- none, whose destination has an IPv4 address, the rules for IPv6 are those where it has none,
-- and both together are as many as the policies.
pub rules_of-IsSplit :
    (g : Gnet) (n : Network)
    → network_validate g n ≡ none
    → ((ip4 : Bool) (r : RoutePolicy)
        → Memᴰ r (rules_of ip4 n.routing_policy) ↔ (Memᴰ r n.routing_policy × IsFor ip4 r))
      × (length (rules_of true n.routing_policy) + length (rules_of false n.routing_policy)
          ≡ length n.routing_policy)
rules_of-IsSplit g n accepted = (
  λ ip4 r.
      let (to, from) = rules_of_iff ip4 r n.routing_policy in
      let (known, back) = rule_family_iff ip4 r in
      (λ m. ((to m).0, known (to m).1), λ (m, h). from (m, back h)),
  length-rules_of n.routing_policy ((network_validate_iff g n).0 accepted).policies,
)
