-- ===== src/Commands/Entries.antt =====
-- include/csCommon.h: the equality of server entries, their hash and their copies; the zones.
use ugly_ff.Base.{
  ℕ, ◌/◌, ◌^◌, ◌≤◌, ◌≡◌, ◌↔◌, refl, sym, ap, ◌∙◌, true, false, not, List, [], ◌∷◌, none, some,
  if◌then◌else◌, ◌==◌, length, Bool-cases, Option-cases, inl, inr, arith,
}
use ugly_ff.Text.Case.{Text, text_eq, text_eq_refl, text_eq_sound}
use ugly_ff.Commands.{
  ServerEntry, c_string, strcpy, strcmp_zero, entry_eq, entry_hash, assign_entry, new_zone, zone_eq,
}

-- The entries agree in all five fields; the addresses, `s` and `t`, up to the first 0.
pub record SameEntry (e p : ServerEntry) (s t : Text) : Type 0 where
  pub server_id : e.server_id ≡ p.server_id
  pub server_type : e.server_type ≡ p.server_type
  pub ip : s ≡ t
  pub port : e.port ≡ p.port
  pub state : e.state ≡ p.state

module _ (e p : ServerEntry) {s t : Text} (se : c_string e.ip ≡ some s)
    (tp : c_string p.ip ≡ some t) where
  entry_eq_opened : entry_eq e p ≡ (
      if not (e.server_id == p.server_id)
      then some false
      else if not (e.server_type == p.server_type)
      then some false
      else some (
          if not (text_eq s t)
          then false
          else if not (e.port == p.port)
          then false
          else if not (e.state == p.state)
          then false
          else true))
  unfolding entry_eq strcmp_zero
  entry_eq_opened = rw (se, tp) refl

  same-entry_eq : SameEntry e p s t → entry_eq e p ≡ some true
  same-entry_eq h =
      let texts : text_eq s t ≡ true = rw h.ip (text_eq_refl t) in ground (arith, entry_eq_opened)

  entry_eq-same : entry_eq e p ≡ some true → SameEntry e p s t
  entry_eq-same h =
      let texts = text_eq_sound s t in
      record {
        server_id = ground (arith, entry_eq_opened);
        server_type = ground (arith, entry_eq_opened);
        ip = ground (arith, entry_eq_opened, texts);
        port = ground (arith, entry_eq_opened);
        state = ground (arith, entry_eq_opened);
      }

-- Where both addresses are terminated, operator== says yes exactly where the entries agree in all
-- five fields (the addresses up to their first 0), and entries that it calls equal have the same
-- hash, whatever the library's hash of a WORD is.
pub entry_eq-SameEntry :
    (e p : ServerEntry) (s t : Text) (word_hash : ℕ → ℕ)
    → c_string e.ip ≡ some s
    → c_string p.ip ≡ some t
    → ((entry_eq e p ≡ some true) ↔ SameEntry e p s t)
      × (entry_eq e p ≡ some true → entry_hash word_hash e ≡ entry_hash word_hash p)
unfolding entry_hash
entry_eq-SameEntry e p s t word_hash se tp = (
  (entry_eq-same e p se tp, same-entry_eq e p se tp),
  λ h. ap word_hash (entry_eq-same e p se tp h).server_id,
)

c_string-cons :
    (c : ℕ) (cs : List ℕ) (t : Text)
    → (c == 0) ≡ false
    → c_string cs ≡ some t
    → c_string (c ∷ cs) ≡ some (c ∷ t)
unfolding c_string
c_string-cons c cs t goes found = rw (goes, found) refl

c_string_open :
    (c : ℕ) (cs : List ℕ) → (c == 0) ≡ false → c_string cs ≡ none → c_string (c ∷ cs) ≡ none
unfolding c_string
c_string_open c cs goes missing = rw (goes, missing) refl

strcpy-c_string :
    (dest source : List ℕ) (s : Text)
    → length source ≤ length dest
    → c_string source ≡ some s
    → (r : List ℕ) × (strcpy dest source ≡ some r) × (c_string r ≡ some s)
unfolding c_string strcpy
strcpy-c_string dest [] s h e = cc
strcpy-c_string [] (c ∷ cs) s h e = absurd (omega arith)
strcpy-c_string (d ∷ ds) (c ∷ cs) s h e = elim (Bool-cases (c == 0)) [
  | inl ends ↦ let empty : s ≡ [] = ground arith in (0 ∷ ds, rw ends refl, rw empty refl)
  | inr goes ↦ elim (Option-cases (c_string cs)) [
    | inl missing ↦ let open_end = c_string_open c cs goes missing in cc
    | inr (t, found) ↦
        let (r, copied, same) = strcpy-c_string ds cs t (omega arith) found in
        (
          c ∷ r,
          rw (goes, copied) refl,
          c_string-cons c r t goes same ∙ sym (c_string-cons c cs t goes found) ∙ e,
        )
  ]
]

-- An entry that is assigned a terminated one (whose address is not longer than the place) compares
-- equal to it, whatever it held before.
pub assign_entry-entry_eq :
    (e se : ServerEntry) (s : Text)
    → length se.ip ≤ length e.ip
    → c_string se.ip ≡ some s
    → (r : ServerEntry) × (assign_entry e se ≡ some r) × (entry_eq r se ≡ some true)
unfolding assign_entry
assign_entry-entry_eq e se s h found =
    let (ip, copied, same) = strcpy-c_string e.ip se.ip s h found in
    let r : ServerEntry = record se { ip = ip } in
    (
      r,
      rw copied refl,
      same-entry_eq r se same found
          record { server_id = refl; server_type = refl; ip = refl; port = refl; state = refl },
    )

-- The constructor sets half of the DWORD that is compared: two new zones are equal exactly where
-- the other halves, which nobody sets, happen to agree.
pub new_zone-zone_eq :
    (a b : ℕ) → (zone_eq (new_zone a) (new_zone b) ≡ true) ↔ (a / 2 ^ 32 ≡ b / 2 ^ 32)
unfolding zone_eq new_zone
new_zone-zone_eq a b = (λ h. ground arith, λ h. ground arith)
