-- ===== src/StartUp/Acts.antt =====
-- The acts of a run of `main`: which parts are started and which destroyed, in their order.
use mathlib.Core.List.{append_assoc}
use smartmeter_gateway.Prelude.{Bool, false, List, [], ◌∷◌, ◌++◌, ◌≡◌, refl, ap, sym, ◌∙◌, All}
use smartmeter_gateway.StartUp.{Part, Act, started, destroyed, destroy_all}

-- The parts that are started, and those that are destroyed, in the order of the acts.
abbrev pub start_of : {P : Type 0} → Act P → List Part
start_of (started part p) = part ∷ []
start_of _ = []

abbrev pub end_of : {P : Type 0} → Act P → List Part
end_of (destroyed part running) = part ∷ []
end_of _ = []

abbrev pub collect : {P : Type 0} → (Act P → List Part) → List (Act P) → List Part
collect f [] = []
collect f (a ∷ acts) = f a ++ collect f acts

-- A destructor runs while the program no longer runs.
abbrev pub IsStopped : {P : Type 0} → Act P → Type 0
IsStopped (destroyed part running) = running ≡ false
IsStopped _ = Unit

pub destroy_all_ends :
    (P : Type 0) (parts : List Part) (b : Bool)
    → collect {P = P} end_of (destroy_all parts b) ≡ parts
destroy_all_ends P [] b = refl
destroy_all_ends P (part ∷ parts) b = ap (λ z. part ∷ z) (destroy_all_ends P parts b)

pub destroy_all_starts :
    (P : Type 0) (parts : List Part) (b : Bool)
    → collect {P = P} start_of (destroy_all parts b) ≡ []
destroy_all_starts P [] b = refl
destroy_all_starts P (part ∷ parts) b = destroy_all_starts P parts b

pub destroy_all-IsStopped :
    (P : Type 0) (parts : List Part) (b : Bool)
    → b ≡ false
    → All (IsStopped {P = P}) (destroy_all parts b)
destroy_all-IsStopped P [] b e = tt
destroy_all-IsStopped P (part ∷ parts) b e = (e, destroy_all-IsStopped P parts b e)

pub collect-append :
    {P : Type 0} (f : Act P → List Part) (xs ys : List (Act P))
    → collect f (xs ++ ys) ≡ collect f xs ++ collect f ys
collect-append f [] ys = refl
collect-append f (x ∷ xs) ys =
    ap (λ (z : List Part). f x ++ z) (collect-append f xs ys)
    ∙ sym (append_assoc (f x) (collect f xs) (collect f ys))
