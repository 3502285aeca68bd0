-- ===== src/Store/Window.antt =====
-- The window of recent events that `append` and `open` of src/store.rs keep in memory.
use yt_websub.Prelude.{
  ◌≤◌, false, ◌≢◌, List, [], ◌∷◌, ◌++◌, foldl, foldl-append, append_assoc, append-nil, ◌≡◌, refl,
  sym, ap, ◌∙◌, arith, ltb, Bool-cases, inl, inr, length, length-append, pop_front,
}
use yt_websub.Store.Line.{Event}
use yt_websub.Store.{recent_cap, push_recent}

-- The window over a history of events.
unfoldable pub window : List Event → List Event
unfolding push_recent
window es = foldl push_recent [] es

pub push_recent-le :
    (w : List Event) (e : Event) → length w ≤ recent_cap → length (push_recent w e) ≤ recent_cap
unfolding push_recent
push_recent-le [] e h = ground arith
push_recent-le (x ∷ w) e h = ground (arith, length-append w (e ∷ []))

foldl-push_recent-le :
    (es w : List Event) → length w ≤ recent_cap → length (foldl push_recent w es) ≤ recent_cap
foldl-push_recent-le [] w h = h
foldl-push_recent-le (e ∷ es) w h = foldl-push_recent-le es (push_recent w e) (push_recent-le w e h)

-- The window never holds more than its cap.
pub length-window-le : (es : List Event) → length (window es) ≤ recent_cap
unfolding window
length-window-le es = foldl-push_recent-le es [] (omega arith)

-- `w` ends `es`.
abbrev pub IsEnd : List Event → List Event → Type 0
IsEnd w es = (pre : List Event) × (es ≡ pre ++ w)

pop_front-IsEnd : (w es : List Event) → IsEnd w es → IsEnd (pop_front w) es
pop_front-IsEnd [] es h = h
pop_front-IsEnd (x ∷ w) es (pre, h) = (pre ++ x ∷ [], h ∙ sym (append_assoc pre (x ∷ []) w))

push_recent-IsEnd :
    (w es : List Event) (e : Event) → IsEnd w es → IsEnd (push_recent w e) (es ++ e ∷ [])
unfolding push_recent
push_recent-IsEnd w es e (pre, h) =
    let longer : IsEnd (w ++ e ∷ []) (es ++ e ∷ []) =
      (pre, ap (λ (t : List Event). t ++ e ∷ []) h ∙ append_assoc pre w (e ∷ [])) in
    elim (Bool-cases (ltb recent_cap (length (w ++ e ∷ [])))) [
      | inl over ↦ rw over (pop_front-IsEnd (w ++ e ∷ []) (es ++ e ∷ []) longer)
      | inr room ↦ rw room longer
    ]

foldl-push_recent-IsEnd :
    (more w es : List Event) → IsEnd w es → IsEnd (foldl push_recent w more) (es ++ more)
foldl-push_recent-IsEnd [] w es h = rw append-nil h
foldl-push_recent-IsEnd (e ∷ more) w es h =
    rw (← append_assoc es (e ∷ []) more)
      (foldl-push_recent-IsEnd more (push_recent w e) (es ++ e ∷ []) (push_recent-IsEnd w es e h))

-- The window is the end of the history.
pub window-IsEnd : (es : List Event) → IsEnd (window es) es
unfolding window
window-IsEnd es = foldl-push_recent-IsEnd es [] [] ([], refl)

push_recent-ne-nil : (w : List Event) (e : Event) → push_recent w e ≢ []
unfolding push_recent
push_recent-ne-nil [] e = ground arith
push_recent-ne-nil (x ∷ []) e = ground arith
push_recent-ne-nil (x ∷ y ∷ w) e = ground arith

foldl-push_recent-ne-nil : (es w : List Event) → w ≢ [] → foldl push_recent w es ≢ []
foldl-push_recent-ne-nil [] w h = h
foldl-push_recent-ne-nil (e ∷ es) w h =
    foldl-push_recent-ne-nil es (push_recent w e) (push_recent-ne-nil w e)

-- Only the empty history has an empty window.
pub window-eq-nil : (es : List Event) → window es ≡ [] → es ≡ []
unfolding window
window-eq-nil [] h = refl
window-eq-nil (e ∷ es) h =
    absurd (foldl-push_recent-ne-nil es (push_recent [] e) (push_recent-ne-nil [] e) h)

-- Of two windows of which one ends the other, that stays so as events come in.
push_recent-last :
    (p w : List Event) (e : Event)
    → length (p ++ w) ≤ recent_cap
    → IsEnd (push_recent w e) (push_recent (p ++ w) e)
unfolding push_recent
push_recent-last [] w e h = ([], refl)
push_recent-last (x ∷ p) w e h =
    let small : ltb recent_cap (length (w ++ e ∷ [])) ≡ false =
      ground (arith, length-append p w, length-append w (e ∷ [])) in
    elim (Bool-cases (ltb recent_cap (length ((x ∷ p ++ w) ++ e ∷ [])))) [
      | inl over ↦ rw (small, over) (p, append_assoc p w (e ∷ []))
      | inr room ↦ rw (small, room) (x ∷ p, append_assoc (x ∷ p) w (e ∷ []))
    ]

foldl-push_recent-last :
    (es w v : List Event)
    → IsEnd w v
    → length v ≤ recent_cap
    → IsEnd (foldl push_recent w es) (foldl push_recent v es)
foldl-push_recent-last [] w v h le = h
foldl-push_recent-last (e ∷ es) w v (p, h) le =
    foldl-push_recent-last es (push_recent w e) (push_recent v e)
      (rw h (push_recent-last p w e (rw h at le))) (push_recent-le v e le)

-- The window over the end of a history ends the window over the whole of it.
pub window-append : (pre es : List Event) → IsEnd (window es) (window (pre ++ es))
unfolding window
window-append pre es = rw (foldl-append push_recent [] pre es) (
    foldl-push_recent-last es [] (foldl push_recent [] pre)
      (foldl push_recent [] pre, sym (append-nil _)) (foldl-push_recent-le pre [] (omega arith)))
