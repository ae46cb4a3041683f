-- ===== src/Weights/Invariant/Publications.antt =====
-- The invariant's clauses, through the map operations that control-plane/weights/service.go uses.
use skyscale.Prelude.{
  ◌≡◌, inl, inr, String, ◌==◌, [], ◌∷◌, Dict, lookup, insert, adjust, some, Within, arith, eq_iff,
  Text-cases, Option-cases, Bool-cases, lookup-insert, lookup-adjust, map_values, lookup-map_values,
}
use skyscale.Weights.Types.{EngineState, Publication}
use skyscale.Weights.Invariant.{Sound, AllSound, Unanimous, Agreed, blank, agreed}

pub Sound-Within :
    (e e' : Dict EngineState) (p : Publication) → Within e e' → Sound e p → Sound e' p
Sound-Within e e' p w s = record {
  one_each = s.one_each;
  from_required = s.from_required;
  registered = λ k missing. s.registered k (w k missing);
}

pub AllSound-Within :
    (e e' : Dict EngineState) (m : Dict Publication) → Within e e' → AllSound e m → AllSound e' m
AllSound-Within e e' [] w a = tt
AllSound-Within e e' ((v, p) ∷ m) w a = (Sound-Within e e' p w a.0, AllSound-Within e e' m w a.1)

pub AllSound-lookup :
    (e : Dict EngineState) (m : Dict Publication) (v : String) (p : Publication)
    → AllSound e m
    → lookup v m ≡ some p
    → Sound e p
unfolding lookup
AllSound-lookup e [] v p a h = absurd (ground arith)
AllSound-lookup e ((w, q) ∷ m) v p a h = elim (Bool-cases (w == v)) [
  | inl same ↦
      let one : some q ≡ some p = rw (same, lookup) at h in let body : q ≡ p = cc in rw (← body) a.0
  | inr other ↦ AllSound-lookup e m v p a.1 (rw (other, lookup) at h)
]

pub AllSound-insert :
    (e : Dict EngineState) (m : Dict Publication) (v : String) (p : Publication)
    → AllSound e m
    → Sound e p
    → AllSound e (insert v p m)
unfolding insert
AllSound-insert e [] v p a s = (s, tt)
AllSound-insert e ((w, q) ∷ m) v p a s = elim (Bool-cases (w == v)) [
  | inl same ↦ rw (same, insert) (s, a.1)
  | inr other ↦ rw (other, insert) (a.0, AllSound-insert e m v p a.1 s)
]

pub AllSound-adjust :
    (e : Dict EngineState) (m : Dict Publication) (v : String) (f : Publication → Publication)
    → ((p : Publication) → Sound e p → Sound e (f p))
    → AllSound e m
    → AllSound e (adjust v f m)
unfolding adjust
AllSound-adjust e [] v f keeps a = tt
AllSound-adjust e ((w, q) ∷ m) v f keeps a = elim (Bool-cases (w == v)) [
  | inl same ↦ rw (same, adjust) (keeps q a.0, a.1)
  | inr other ↦ rw (other, adjust) (a.0, AllSound-adjust e m v f keeps a.1)
]

-- A version that was acknowledged by all stays so.
abbrev pub KeepsUnanimous : Dict Publication → Dict Publication → Type 0
KeepsUnanimous m m' =
    (v : String) (p : Publication)
    → lookup v m ≡ some p
    → Unanimous p
    → (p' : Publication) × (lookup v m' ≡ some p') × Unanimous p'

pub Agreed-Keeps :
    (m m' : Dict Publication) (v : String) → KeepsUnanimous m m' → Agreed m v → Agreed m' v
Agreed-Keeps m m' v keeps (blank e) = blank e
Agreed-Keeps m m' v keeps (agreed p found u) =
    let (p', found', u') = keeps v p found u in agreed p' found' u'

pub KeepsUnanimous-insert :
    (m : Dict Publication) (v : String) (p' : Publication)
    → ((p : Publication) → lookup v m ≡ some p → Unanimous p → Unanimous p')
    → KeepsUnanimous m (insert v p' m)
KeepsUnanimous-insert m v p' grows w p found u = elim (Text-cases v w) [
  | inl e ↦ (p', ground (arith, lookup-insert v w p' m, eq_iff v w), grows p (rw e found) u)
  | inr ne ↦ (p, ground (arith, lookup-insert v w p' m, eq_iff v w), u)
]

pub KeepsUnanimous-adjust :
    (m : Dict Publication) (v : String) (f : Publication → Publication)
    → ((p : Publication) → Unanimous p → Unanimous (f p))
    → KeepsUnanimous m (adjust v f m)
KeepsUnanimous-adjust m v f grows w p found u = elim (Text-cases v w) [
  | inl e ↦ (f p, ground (arith, lookup-adjust v w f m, eq_iff v w), grows p u)
  | inr ne ↦ (p, ground (arith, lookup-adjust v w f m, eq_iff v w), u)
]

-- Engines: an entry that is written or changed in place leaves every engine registered.
pub Within-insert : {V : Type 0} (k : String) (v : V) (m : Dict V) → Within m (insert k v m)
Within-insert k v m j missing = ground (arith, lookup-insert k j v m)

pub Within-adjust : {V : Type 0} (k : String) (f : V → V) (m : Dict V) → Within m (adjust k f m)
Within-adjust k f m j missing = elim (Option-cases (lookup j m)) [
  | inl e ↦ e
  | inr (w, found) ↦ absurd (ground (arith, lookup-adjust k j f m))
]

pub Within-map_values : {V : Type 0} (f : V → V) (m : Dict V) → Within m (map_values f m)
Within-map_values f m j missing = elim (Option-cases (lookup j m)) [
  | inl e ↦ e
  | inr (w, found) ↦ absurd (ground (arith, lookup-map_values j f m))
]
