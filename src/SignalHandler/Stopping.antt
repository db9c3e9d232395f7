-- ===== src/SignalHandler/Stopping.antt =====
-- What a part of the program may do to the shutdown flag: nothing, or one `shutdown`.
use smartmeter_gateway.Prelude.{◌⊎◌, inl, inr, false, ◌≡◌, ap, ◌∙◌}
use smartmeter_gateway.SignalHandler.{SignalHandler, is_running, shutdown}

abbrev pub MayStop : SignalHandler → SignalHandler → Type 0
MayStop h h' = (h' ≡ h) ⊎ (h' ≡ shutdown h)

pub MayStop-trans : (h i j : SignalHandler) → MayStop h i → MayStop i j → MayStop h j
unfolding shutdown
MayStop-trans h i j (inl p) (inl q) = inl (q ∙ p)
MayStop-trans h i j (inl p) (inr q) = inr (q ∙ ap shutdown p)
MayStop-trans h i j (inr p) (inl q) = inr (q ∙ p)
MayStop-trans h i j (inr p) (inr q) = inr (q ∙ ap shutdown p)

-- A flag that is down stays down.
pub MayStop-down :
    (h h' : SignalHandler) → MayStop h h' → is_running h ≡ false → is_running h' ≡ false
unfolding is_running shutdown
MayStop-down h h' (inl p) e = ap is_running p ∙ e
MayStop-down h h' (inr p) e = ap is_running p
