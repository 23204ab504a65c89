-- ===== src/Vless/Vision/Pieces.antt =====
-- unPadding of bytes that come in pieces (vless/vision.go).
use sing_vmess.Base.{
  ℕ, zero, suc, ◌≤◌, ◌<◌, ◌≡◌, refl, sym, ap, ◌∙◌, subst, inl, inr, true, none, some, List, [], ◌∷◌,
  ◌++◌, arith, ltb, leb, ◌==◌, le→leb, Bool-cases, length, take, drop, concat, Bytes, short,
}
use sing_vmess.Vless.Vision.{Unpadder, enter_block, unpad_from, equal, unpadding}
use sing_vmess.Vless.Vision.Bytewise.{
  in_block, fill, header_byte, eat_in, eats, in_front, outcome, eats-append, unpad_loop-eats,
}

-- unPadding of some buffers, one after the other: all the bytes that come out, and the state.
pub unpad_all : List Bytes → Unpadder → Bytes × Unpadder
unpad_all [] u = ([], u)
unpad_all (b ∷ bs) u =
    let after = outcome (unpadding b u) in in_front after.0 (unpad_all bs after.1)

InBlock : Unpadder → Type 0
InBlock w = (c k : ℕ) × (v : Unpadder) × (w ≡ in_block c k v) × (length v.header < 5)

fill-InBlock : (got : Bytes) (u : Unpadder) → InBlock (fill got (in_block 0 0 u))
unfolding InBlock fill enter_block
fill-InBlock got u = elim (Bool-cases (ltb (length got) 5)) [
  | inl small ↦ rw small (0, 0, record u { header = got }, refl, ground arith)
  | inr full ↦ rw full (_, _, enter_block got u, refl, omega arith)
]

eat_in-InBlock :
    (c k x : ℕ) (u : Unpadder)
    → length u.header < 5
    → InBlock (eat_in (some (c, k)) x (in_block c k u)).1
unfolding eat_in
eat_in-InBlock (suc c) k x u short = unfold InBlock in (c, k, u, refl, short)
eat_in-InBlock zero (suc k) x u short = unfold InBlock in (0, k, u, refl, short)
eat_in-InBlock zero zero x u short = elim (Bool-cases (u.current_command == 1)) [
  | inl end ↦ unfold header_byte InBlock in rw end (0, 0, u, refl, short)
  | inr other ↦ unfold header_byte in rw other (fill-InBlock (u.header ++ (x ∷ [])) u)
]

eats-InBlock :
    (b : Bytes) (c k : ℕ) (u : Unpadder) → length u.header < 5 → InBlock (eats b (in_block c k u)).1
unfolding eats InBlock
eats-InBlock [] c k u short = (c, k, u, refl, short)
eats-InBlock (x ∷ b) c k u short =
    let (c', k', v, e, short') = eat_in-InBlock c k x u short in
    subst (λ w. InBlock (eats b w).1) (sym e) (eats-InBlock b c' k' v short')

unpadding-eats :
    (b : Bytes) (c k : ℕ) (u : Unpadder)
    → length u.header < 5
    → outcome (unpadding b (in_block c k u)) ≡ eats b (in_block c k u)
unfolding unpadding unpad_from
unpadding-eats b c k u short = unpad_loop-eats (length b) c k b u (omega arith) short

-- However the bytes are cut.
unpad_all-eats :
    (bs : List Bytes) (c k : ℕ) (u : Unpadder)
    → length u.header < 5
    → unpad_all bs (in_block c k u) ≡ eats (concat bs) (in_block c k u)
unfolding unpad_all InBlock
unpad_all-eats [] c k u short = unfold eats in refl
unpad_all-eats (b ∷ bs) c k u short =
    let now = eats b (in_block c k u) in
    let (c', k', v, e, short') = eats-InBlock b c k u short in
    ap (λ r. in_front r.0 (unpad_all bs r.1)) (unpadding-eats b c k u short)
    ∙ ap (in_front now.0) (
        subst (λ w. unpad_all bs w ≡ eats (concat bs) w) (sym e) (unpad_all-eats bs c' k' v short'))
    ∙ sym (eats-append b (concat bs) (in_block c k u))

-- The first buffer must hold the user's id and a header.
pub unpad_all_first :
    (first : Bytes) (more : List Bytes) (u : Unpadder)
    → u.remaining ≡ none
    → length u.header < 5
    → 21 ≤ length first
    → equal u.user_uuid (take 16 first) ≡ true
    → unpad_all (first ∷ more) u
      ≡ eats (drop 16 first ++ concat more) (in_block 0 0 (record u { current_command = 0 }))
unfolding unpad_all unpadding unpad_from InBlock
unpad_all_first first more u new short long id =
    let v : Unpadder = record u { current_command = 0 } in
    let enough : leb 21 (length first) ≡ true = le→leb _ _ long in
    let now = eats (drop 16 first) (in_block 0 0 v) in
    let (c', k', w, e, short') = eats-InBlock (drop 16 first) 0 0 v short in
    (rw (new, enough, id)
      (ap (λ r. in_front r.0 (unpad_all more r.1))
        (unpad_loop-eats (length (drop 16 first)) 0 0 (drop 16 first) v (omega arith) short)))
    ∙ ap (in_front now.0) (
        subst (λ s. unpad_all more s ≡ eats (concat more) s) (sym e)
          (unpad_all-eats more c' k' w short'))
    ∙ sym (eats-append (drop 16 first) (concat more) (in_block 0 0 v))
