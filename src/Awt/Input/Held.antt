-- ===== src/Awt/Input/Held.antt =====
-- The held buttons and modifier keys of launch/awt.rs after any sequence of events.
use Prim.Native.Nat.{bit_or, bit_and}
use rc_launcher.Base.{
  ℕ, ◌≡◌, refl, Bool, true, false, ◌==◌, if◌then◌else◌, List, [], ◌∷◌, Bool-cases, inl, inr, ◌⊎◌,
  none, some, ap, sym, ◌∙◌, ◌||◌,
}
use rc_launcher.Awt.Event.{
  MouseButton, left, middle, right, mask, modifier_mask_for_vk, AwtEvent, pointer_move,
  pointer_down, pointer_up, scroll, key_down, key_up, text, focus, resize_event, AwtEventRecord,
}
use rc_launcher.Awt.Event.Codes.{vk_shift, vk_control, vk_alt, vk_meta, mouse_dragged, mouse_moved}
use rc_launcher.Awt.Input.Clicks.{kinds}
use rc_launcher.Awt.Input.{
  AwtInputTranslator, new_translator, translate, translate_all, bit_clear, release_all,
  release_button, release_key, mouse_record,
}
use rc_launcher.Awt.Input.Bits.{
  button_bits, key_bits, set_button, set_key, nothing_held, hold, hold_all, Held, press_button,
  release_bits, unheld, press_shift, press_ctrl, press_alt, press_meta, clear_shift, clear_ctrl,
  clear_alt, clear_meta, keys_kept, up_shift, up_ctrl, up_alt, up_meta, some_bit,
}

-- The bits of the translator are those of the set.
pub record IsHolding (h : Held) (t : AwtInputTranslator) : Type 0 where
  pub by_buttons : t.buttons ≡ button_bits h.left_down h.middle_down h.right_down
  pub by_keys : t.modifier_keys ≡ key_bits h.shift h.ctrl h.alt h.meta

-- Which bit a key code moves, and which member of the set.
key-cases :
    (code : ℕ) (v : Bool) (h : Held)
    → ((modifier_mask_for_vk code ≡ some 64) × (set_key code v h ≡ record h { shift = v }))
      ⊎ ((modifier_mask_for_vk code ≡ some 128) × (set_key code v h ≡ record h { ctrl = v }))
      ⊎ ((modifier_mask_for_vk code ≡ some 512) × (set_key code v h ≡ record h { alt = v }))
      ⊎ ((modifier_mask_for_vk code ≡ some 256) × (set_key code v h ≡ record h { meta = v }))
      ⊎ ((modifier_mask_for_vk code ≡ none) × (set_key code v h ≡ h))
unfolding set_key modifier_mask_for_vk
key-cases code v h = elim (Bool-cases (code == vk_shift)) [
  | inl e ↦ inl (rw e (refl, refl))
  | inr a ↦ elim (Bool-cases (code == vk_control)) [
    | inl e ↦ inr (inl (rw a (rw e (refl, refl))))
    | inr b ↦ elim (Bool-cases (code == vk_alt)) [
      | inl e ↦ inr (inr (inl (rw a (rw b (rw e (refl, refl))))))
      | inr c ↦ elim (Bool-cases (code == vk_meta)) [
        | inl e ↦ inr (inr (inr (inl (rw a (rw b (rw c (rw e (refl, refl))))))))
        | inr d ↦ inr (inr (inr (inr (rw a (rw b (rw c (rw d (refl, refl))))))))
      ]
    ]
  ]
]

key_down-IsHolding :
    (code : ℕ) (h : Held) (t : AwtInputTranslator)
    → IsHolding h t
    → IsHolding (set_key code true h) (translate t (key_down code)).0
unfolding translate
key_down-IsHolding code h t i = elim (key-cases code true h) [
  | inl (e, q) ↦
      rw (e, q, translate)
        (record {
          by_buttons = i.by_buttons;
          by_keys = ap (λ x. bit_or x 64) i.by_keys ∙ press_shift h.shift h.ctrl h.alt h.meta;
        })
  | inr (inl (e, q)) ↦
      rw (e, q, translate)
        (record {
          by_buttons = i.by_buttons;
          by_keys = ap (λ x. bit_or x 128) i.by_keys ∙ press_ctrl h.shift h.ctrl h.alt h.meta;
        })
  | inr (inr (inl (e, q))) ↦
      rw (e, q, translate)
        (record {
          by_buttons = i.by_buttons;
          by_keys = ap (λ x. bit_or x 512) i.by_keys ∙ press_alt h.shift h.ctrl h.alt h.meta;
        })
  | inr (inr (inr (inl (e, q)))) ↦
      rw (e, q, translate)
        (record {
          by_buttons = i.by_buttons;
          by_keys = ap (λ x. bit_or x 256) i.by_keys ∙ press_meta h.shift h.ctrl h.alt h.meta;
        })
  | inr (inr (inr (inr (e, q)))) ↦ rw (e, q, translate) i
]

key_up-IsHolding :
    (code : ℕ) (h : Held) (t : AwtInputTranslator)
    → IsHolding h t
    → IsHolding (set_key code false h) (translate t (key_up code)).0
unfolding translate
key_up-IsHolding code h t i = elim (key-cases code false h) [
  | inl (e, q) ↦
      rw (e, q, translate)
        (record {
          by_buttons = i.by_buttons;
          by_keys = ap (λ x. bit_clear x 64) i.by_keys ∙ clear_shift h.shift h.ctrl h.alt h.meta;
        })
  | inr (inl (e, q)) ↦
      rw (e, q, translate)
        (record {
          by_buttons = i.by_buttons;
          by_keys = ap (λ x. bit_clear x 128) i.by_keys ∙ clear_ctrl h.shift h.ctrl h.alt h.meta;
        })
  | inr (inr (inl (e, q))) ↦
      rw (e, q, translate)
        (record {
          by_buttons = i.by_buttons;
          by_keys = ap (λ x. bit_clear x 512) i.by_keys ∙ clear_alt h.shift h.ctrl h.alt h.meta;
        })
  | inr (inr (inr (inl (e, q)))) ↦
      rw (e, q, translate)
        (record {
          by_buttons = i.by_buttons;
          by_keys = ap (λ x. bit_clear x 256) i.by_keys ∙ clear_meta h.shift h.ctrl h.alt h.meta;
        })
  | inr (inr (inr (inr (e, q)))) ↦ rw (e, q, translate) i
]

release_button-IsHolding :
    (b : MouseButton) (h : Held) (t : AwtInputTranslator) (out : List AwtEventRecord)
    → IsHolding h t
    → IsHolding (set_button b false h) (release_button b (t, out)).0
unfolding release_button
release_button-IsHolding b h t out i = elim (Bool-cases (bit_and t.buttons (mask b) == 0)) [
  | inl e ↦ let q = unheld b h (rw i.by_buttons at e) in rw (e, q, release_button) i
  | inr e ↦
      rw (e, release_button)
        (record {
          by_buttons = ap (λ x. bit_clear x (mask b)) i.by_buttons ∙ release_bits b h;
          by_keys = i.by_keys ∙ sym (keys_kept b false h);
        })
]

-- A key that is released, or was not held.
release_key-IsHolding :
    (m code : ℕ) (h k : Held) (t : AwtInputTranslator) (out : List AwtEventRecord)
    → button_bits h.left_down h.middle_down h.right_down
      ≡ button_bits k.left_down k.middle_down k.right_down
    → bit_clear (key_bits h.shift h.ctrl h.alt h.meta) m ≡ key_bits k.shift k.ctrl k.alt k.meta
    → ((bit_and (key_bits h.shift h.ctrl h.alt h.meta) m == 0) ≡ true
        → key_bits h.shift h.ctrl h.alt h.meta ≡ key_bits k.shift k.ctrl k.alt k.meta)
    → IsHolding h t
    → IsHolding k (release_key m code (t, out)).0
unfolding release_key
release_key-IsHolding m code h k t out same cleared unheld_key i =
    elim (Bool-cases (bit_and t.modifier_keys m == 0)) [
      | inl e ↦
          rw (e, release_key)
            (record {
              by_buttons = i.by_buttons ∙ same;
              by_keys = i.by_keys ∙ unheld_key (rw i.by_keys at e);
            })
      | inr e ↦
          rw (e, release_key)
            (record {
              by_buttons = i.by_buttons ∙ same;
              by_keys = ap (λ x. bit_clear x m) i.by_keys ∙ cleared;
            })
    ]

release_all-IsHolding :
    (h : Held) (t : AwtInputTranslator) → IsHolding h t → IsHolding nothing_held (release_all t).0
unfolding release_all set_button
release_all-IsHolding h t i =
    let h₁ = set_button left false h in
    let h₂ = set_button middle false h₁ in
    let h₃ = set_button right false h₂ in
    let h₄ : Held = record h₃ { shift = false } in
    let h₅ : Held = record h₄ { ctrl = false } in
    let h₆ : Held = record h₅ { alt = false } in
    let i₁ = release_button-IsHolding left h t [] i in
    let i₂ = release_button-IsHolding middle h₁ _ _ i₁ in
    let i₃ = release_button-IsHolding right h₂ _ _ i₂ in
    let i₄ =
      release_key-IsHolding 64 16 h₃ h₄ _ _ refl (clear_shift h.shift h.ctrl h.alt h.meta)
        (up_shift h.shift h.ctrl h.alt h.meta) i₃ in
    let i₅ =
      release_key-IsHolding 128 17 h₄ h₅ _ _ refl (clear_ctrl false h.ctrl h.alt h.meta)
        (up_ctrl false h.ctrl h.alt h.meta) i₄ in
    let i₆ =
      release_key-IsHolding 512 18 h₅ h₆ _ _ refl (clear_alt false false h.alt h.meta)
        (up_alt false false h.alt h.meta) i₅ in
    let i₇ =
      release_key-IsHolding 256 157 h₆ nothing_held _ _ refl (clear_meta false false false h.meta)
        (up_meta false false false h.meta) i₆ in
    record { by_buttons = i₇.by_buttons; by_keys = i₇.by_keys }

translate-IsHolding :
    (e : AwtEvent) (h : Held) (t : AwtInputTranslator)
    → IsHolding h t
    → IsHolding (hold h e) (translate t e).0
unfolding hold translate
translate-IsHolding (pointer_move x y) h t i = record {
  by_buttons = i.by_buttons;
  by_keys = i.by_keys;
}
translate-IsHolding (pointer_down x y b) h t i = record {
  by_buttons = ap (λ z. bit_or z (mask b)) i.by_buttons ∙ press_button b h;
  by_keys = i.by_keys ∙ sym (keys_kept b true h);
}
translate-IsHolding (pointer_up x y b) h t i = record {
  by_buttons = ap (λ z. bit_clear z (mask b)) i.by_buttons ∙ release_bits b h;
  by_keys = i.by_keys ∙ sym (keys_kept b false h);
}
translate-IsHolding (scroll x y ticks) h t i = record {
  by_buttons = i.by_buttons;
  by_keys = i.by_keys;
}
translate-IsHolding (key_down code) h t i = key_down-IsHolding code h t i
translate-IsHolding (key_up code) h t i = key_up-IsHolding code h t i
translate-IsHolding (text ch) h t i = i
translate-IsHolding (focus true) h t i = i
translate-IsHolding (focus false) h t i = release_all-IsHolding h t i
translate-IsHolding (resize_event w k) h t i = i

run-IsHolding :
    (es : List AwtEvent) (h : Held) (t : AwtInputTranslator)
    → IsHolding h t
    → IsHolding (hold_all h es) (translate_all t es).0
unfolding hold_all translate_all
run-IsHolding [] h t i = i
run-IsHolding (e ∷ es) h t i =
    run-IsHolding es (hold h e) (translate t e).0 (translate-IsHolding e h t i)

-- After any sequence of events from a new translator, with any click tolerance, the button bits and
-- the modifier bits are exactly those of the buttons and modifier keys that were pressed since the
-- last loss of focus and not released since.
pub translate_all-IsHolding :
    (slop : ℕ) (es : List AwtEvent)
    → IsHolding
        (hold_all nothing_held es)
        (translate_all (record new_translator { click_slop = slop }) es).0
translate_all-IsHolding slop es =
    run-IsHolding es nothing_held (record new_translator { click_slop = slop })
      (record { by_buttons = refl; by_keys = refl })

-- A move of the pointer after any sequence of events is one record, at the new position: a drag
-- exactly if a button is held, and else a move.
pub translate-move :
    (slop : ℕ) (es : List AwtEvent) (x y : ℕ)
    → let h = hold_all nothing_held es in
      let t = (translate_all (record new_translator { click_slop = slop }) es).0 in
      (kinds (translate t (pointer_move x y)).1
        ≡ (if h.left_down || h.middle_down || h.right_down then mouse_dragged else mouse_moved, 0)
          ∷ [])
      × ((translate t (pointer_move x y)).0.pointer ≡ (x, y))
unfolding translate mouse_record
translate-move slop es x y =
    let h = hold_all nothing_held es in
    let i = translate_all-IsHolding slop es in
    (
      rw (i.by_buttons) (
          rw (some_bit h.left_down h.middle_down h.right_down)
            (elim (Bool-cases (h.left_down || h.middle_down || h.right_down)) [
              | inl e ↦ rw e
              | inr e ↦ rw e
            ])),
      refl,
    )
