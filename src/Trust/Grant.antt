-- ===== src/Trust/Grant.antt =====
-- internal/trust/grant.go: the grant, and the projections of its admitted set.
use cloudarq.Prelude.{Bool, true, false, not, List, [], ◌∷◌, map, if◌then◌else◌}
use cloudarq.Text.Bytes.{Bytes, codes, bytes_eq}
use cloudarq.Eval.Claims.{ClaimKey, Claims}
use cloudarq.Eval.Admitted.{Caveat, AdmittedSet, new_admitted_set, with_caveat, is_exact}
use cloudarq.Trust.Issuer.{IssuerRef}

pub data Effect : Type 0 where
  allow : Effect
  deny : Effect
  effect_unknown : Effect

pub record TargetRef : Type 0 where
  pub kind : Bytes
  pub id : Bytes

pub record Anomaly : Type 0 where
  pub kind : Bytes
  pub claim : ClaimKey
  pub construct : Bytes
  pub message : Bytes
  pub source : Bytes

-- internal/evidence's `Record`, whose time of reading is left out: it enters no result.
pub data Status : Type 0 where
  status_ok : Status
  denied : Status
  throttled : Status
  unsupported : Status
  not_configured : Status

unfoldable pub is_conclusive : Status → Bool
is_conclusive status_ok = true
is_conclusive not_configured = true
is_conclusive _ = false

pub record Record : Type 0 where
  pub api : Bytes
  pub params : Bytes
  pub status : Status
  pub body : Bytes
  pub sha256 : Bytes

pub record Grant : Type 0 where
  pub target : TargetRef
  pub issuer : IssuerRef
  pub admits : AdmittedSet
  pub effect : Effect
  pub provenance : List Record
  pub anomalies : List Anomaly
  pub source : Bytes

abbrev pub aud : ClaimKey
aud = codes "aud"

abbrev pub is_aud : ClaimKey → Bool
is_aud k = bytes_eq k aud

-- The inner loop of `project`: the claims that `keep` refuses are deleted.
unfoldable pub keep_claims {ℓ} : {V : Type ℓ} → (ClaimKey → Bool) → Claims V → Claims V
keep_claims keep [] = []
keep_claims keep (e ∷ t) = let rest = keep_claims keep t in if keep e.0 then e ∷ rest else rest

unfoldable pub with_caveats : AdmittedSet → List Caveat → AdmittedSet
with_caveats a [] = a
with_caveats a (c ∷ cs) = with_caveats (with_caveat a c) cs

unfoldable pub project : AdmittedSet → (ClaimKey → Bool) → AdmittedSet
unfolding keep_claims with_caveats
project s keep = with_caveats (new_admitted_set (map (keep_claims keep) s.terms)) s.caveats

unfoldable pub audience : Grant → AdmittedSet
audience g = project g.admits is_aud

unfoldable pub without_audience : Grant → AdmittedSet
without_audience g = project g.admits (λ k. not (is_aud k))

unfoldable pub grant_exact : Grant → Bool
grant_exact g = is_exact g.admits
