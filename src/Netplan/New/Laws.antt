-- ===== src/Netplan/New/Laws.antt =====
-- For which layouts New returns.
use netwrangler.Base.{
  String, Bool, false, ◌==◌, ◌≡◌, ◌≢◌, refl, sym, ap, ◌∙◌, ◌↔◌, ◌⊎◌, inl, inr, some, List, [], ◌∷◌,
  ⊎_elim, All, eq_iff, Option-cases, apart, differ_by, Bool-cases,
}
use netwrangler.Text.Int.{ℤ}
use netwrangler.GoMap.{GoMap, get}
use netwrangler.Value.{Value, bool, int}
use netwrangler.Net.{Gnet}
use netwrangler.Outcome.{Outcome, ok}
use netwrangler.Outcome.Returns.{Returns, >>=-Returns, bind-Returns, each-Returns}
use netwrangler.Layout.{Interface, Layout}
use netwrangler.Layout.Members.Total.{IsKind}
use netwrangler.Systemd.Devices.Laws.{HasBoolWake}
use netwrangler.Netplan.New.{
  Written, wakes, as_ether, vlan_id, vlan_link, as_vlan, write_one, values, new_netplan,
  blank_written,
}

-- What New asserts of an interface.
pub record IsExpected (i : Interface) : Type 0 where
  pub kind : IsKind i.type
  pub wake : i.type ≡ "physical" → HasBoolWake i
  pub id : i.type ≡ "vlan" → (n : ℤ) × (get "id" i.parameters ≡ some (int n))
  pub link : i.type ≡ "vlan" → i.interfaces ≢ []

as_bool-Returns :
    (v : Value)
    → Returns (elim v [ bool b ↦ ok b | _ ↦ Outcome.panic "interface conversion" ])
      ↔ ((b : Bool) × (v ≡ bool b))
as_bool-Returns (bool b) = (λ h. (b, refl), λ h. (b, refl))
as_bool-Returns _ = (λ (b, e). cc, λ (b, e). cc)

wakes-Returns : (i : Interface) → Returns (wakes i.parameters) ↔ HasBoolWake i
unfolding wakes
wakes-Returns i = elim (Option-cases (get "wakeonlan" i.parameters)) [
  | inl missing ↦ (λ h. inl missing, λ h. rw (missing, wakes) (_, refl))
  | inr (v, here) ↦ (
    λ h. inr (let (b, e) = (as_bool-Returns v).0 (rw (here, wakes) at h) in (b, here ∙ ap some e)),
    λ h. ⊎_elim (λ missing. absurd (cc (sym here ∙ missing))) (λ (b, e). rw (e, wakes) (_, refl)) h,
  )
]

as_int-Returns :
    (v : Value)
    → Returns (elim v [ int n ↦ ok n | _ ↦ Outcome.panic "interface conversion" ])
      ↔ ((n : ℤ) × (v ≡ int n))
as_int-Returns (int n) = (λ h. (n, refl), λ h. (n, refl))
as_int-Returns _ = (λ (b, e). cc, λ (b, e). cc)

vlan_id-Returns : (m : GoMap Value) → Returns (vlan_id m) ↔ ((n : ℤ) × (get "id" m ≡ some (int n)))
unfolding vlan_id
vlan_id-Returns m = elim (Option-cases (get "id" m)) [
  | inl missing ↦
      (λ (n, e). absurd (cc (rw (missing, vlan_id) at e)), λ (n, e). absurd (cc (sym missing ∙ e)))
  | inr (v, here) ↦ (
    λ h. let (n, e) = (as_int-Returns v).0 (rw (here, vlan_id) at h) in (n, here ∙ ap some e),
    λ (n, e). rw (e, vlan_id) (_, refl),
  )
]

vlan_link-Returns : (links : List String) → Returns (vlan_link links) ↔ (links ≢ [])
unfolding vlan_link
vlan_link-Returns [] = (λ (b, e). cc, λ h. absurd (h refl))
vlan_link-Returns (link ∷ links) = (λ h e. cc, λ h. (_, refl))

as_vlan-Returns :
    (i : Interface)
    → Returns (as_vlan i) ↔ ((n : ℤ) × (get "id" i.parameters ≡ some (int n))) × (i.interfaces ≢ [])
unfolding as_vlan
as_vlan-Returns i = (
  λ h.
      (let (n, here, rest) = (>>=-Returns (vlan_id i.parameters) _).0 h in
        (
          (vlan_id-Returns i.parameters).0 (n, here),
          (vlan_link-Returns i.interfaces).0 ((bind-Returns (vlan_link i.interfaces) _).0 rest),
        )),
  λ (id, link).
      (let (n, here) = (vlan_id-Returns i.parameters).1 id in
        (>>=-Returns (vlan_id i.parameters) _).1 (
          n,
          here,
          (bind-Returns (vlan_link i.interfaces) _).1 ((vlan_link-Returns i.interfaces).1 link),
        )),
)

stacked-IsExpected : (i : Interface) → (i.type ≡ "bond") ⊎ (i.type ≡ "bridge") → IsExpected i
stacked-IsExpected i (inl e) = record {
  kind = inr (inl e);
  wake = λ e'. absurd (apart e e' refl);
  id = λ e'. absurd (apart e e' refl);
  link = λ e'. absurd (apart e e' refl);
}
stacked-IsExpected i (inr e) = record {
  kind = inr (inr (inl e));
  wake = λ e'. absurd (apart e e' refl);
  id = λ e'. absurd (apart e e' refl);
  link = λ e'. absurd (apart e e' refl);
}

unknown_kind :
    {type : String}
    → (type == "physical") ≡ false
    → (type == "bond") ≡ false
    → (type == "bridge") ≡ false
    → (type == "vlan") ≡ false
    → IsKind type
    → ⊥
unknown_kind n1 n2 n3 n4 (inl e) = differ_by n1 e
unknown_kind n1 n2 n3 n4 (inr (inl e)) = differ_by n2 e
unknown_kind n1 n2 n3 n4 (inr (inr (inl e))) = differ_by n3 e
unknown_kind n1 n2 n3 n4 (inr (inr (inr e))) = differ_by n4 e

module _ (g : Gnet) where
  as_ether-Returns : (i : Interface) → Returns (as_ether g i) ↔ HasBoolWake i
  unfolding as_ether
  as_ether-Returns i = (
    λ h. (wakes-Returns i).0 ((bind-Returns (wakes i.parameters) _).0 h),
    λ h. (bind-Returns (wakes i.parameters) _).1 ((wakes-Returns i).1 h),
  )

  write_one-Returns : (i : Interface) (w : Written) → Returns (write_one g i w) ↔ IsExpected i
  unfolding write_one
  write_one-Returns i w = elim (Bool-cases (i.type == "physical")) [
    | inl physical ↦
        let e = (eq_iff i.type "physical").0 physical in
        rw physical (
          λ h. record {
            kind = inl e;
            wake = λ e'. (as_ether-Returns i).0 ((bind-Returns (as_ether g i) _).0 h);
            id = λ e'. absurd (apart e e' refl);
            link = λ e'. absurd (apart e e' refl);
          },
          λ x. (bind-Returns (as_ether g i) _).1 ((as_ether-Returns i).1 (x.wake e)),
        )
    | inr n1 ↦ elim (Bool-cases (i.type == "bond")) [
      | inl bond ↦
          rw (n1, bond)
            (λ h. stacked-IsExpected i (inl ((eq_iff i.type "bond").0 bond)), λ x. (_, refl))
      | inr n2 ↦ elim (Bool-cases (i.type == "bridge")) [
        | inl bridge ↦
            rw (n1, n2, bridge)
              (λ h. stacked-IsExpected i (inr ((eq_iff i.type "bridge").0 bridge)), λ x. (_, refl))
        | inr n3 ↦ elim (Bool-cases (i.type == "vlan")) [
          | inl vlan ↦
              let e = (eq_iff i.type "vlan").0 vlan in
              rw (n1, n2, n3, vlan)
                (
                  λ h.
                      (let (id, link) = (as_vlan-Returns i).0 ((bind-Returns (as_vlan i) _).0 h) in
                        record {
                          kind = inr (inr (inr e));
                          wake = λ e'. absurd (apart e e' refl);
                          id = λ e'. id;
                          link = λ e'. link;
                        }),
                  λ x. (bind-Returns (as_vlan i) _).1 ((as_vlan-Returns i).1 (x.id e, x.link e)),
                )
          | inr n4 ↦
              rw (n1, n2, n3, n4)
                (λ (a, e). absurd (cc e), λ x. absurd (unknown_kind n1 n2 n3 n4 x.kind))
        ]
      ]
    ]
  ]

  -- New returns for a layout exactly if each of its interfaces is of one of the four kinds, a
  -- physical one has no wakeonlan but a boolean, and a vlan has an int for its id and lists an
  -- interface.
  pub new_netplan-Returns_iff :
      (l : Layout) → Returns (new_netplan g l) ↔ All IsExpected (values l.interfaces)
  unfolding new_netplan
  new_netplan-Returns_iff l =
      each-Returns (write_one g) IsExpected write_one-Returns (values l.interfaces) blank_written
