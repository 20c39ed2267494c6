-- ===== src/Base/Reach.antt =====
-- Runs of a step relation, and what every step keeps.
pub data Steps {ℓ κ} {W : Type ℓ} (Step : W → W → Type κ) (w : W) : W → Type (ℓ ⊔ κ) where
  here : Steps Step w w
  next : {u v : W} → Steps Step w u → Step u v → Steps Step w v

-- What each step keeps holds after any run.
pub Steps-keep {ℓ κ μ} :
    {W : Type ℓ} {Step : W → W → Type κ} (P : W → Type μ)
    → ((u v : W) → Step u v → P u → P v)
    → {u v : W} → Steps Step u v
    → P u
    → P v
Steps-keep P keep here p = p
Steps-keep P keep (next {u} {v} r s) p = keep u v s (Steps-keep P keep r p)

pub Steps-trans {ℓ κ} :
    {W : Type ℓ} {Step : W → W → Type κ} {u v w : W}
    → Steps Step u v
    → Steps Step v w
    → Steps Step u w
Steps-trans r here = r
Steps-trans r (next s t) = next (Steps-trans r s) t
