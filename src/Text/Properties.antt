-- ===== src/Text/Properties.antt =====
-- include/engine.h: zProperties, a map from texts to texts whose keys go by their upper case.
use ugly_ff.Base.{
  ◌≡◌, refl, sym, ap, ◌∙◌, inl, inr, List, [], ◌∷◌, ◌++◌, Option, none, some, arith, Bool-cases,
  if◌then◌else◌,
}
use ugly_ff.Text.Case.{
  Text, to_upper, to_lower, text_eq, text_eq_refl, text_eq_sound, to_upper-to_lower,
}

-- The unordered_map, as the list of its entries in some order.
abbrev pub Entries : Type 0
Entries = List (Text × Text)

unfoldable pub find_entry : Text → Entries → Option Text
unfolding text_eq
find_entry key [] = none
find_entry key ((k, v) ∷ m) = if text_eq k key then some v else find_entry key m

-- `properties[key] = value`
unfoldable pub put_entry : Text → Text → Entries → Entries
unfolding text_eq
put_entry key value [] = (key, value) ∷ []
put_entry key value ((k, v) ∷ m) =
    if text_eq k key then (k, value) ∷ m else (k, v) ∷ put_entry key value m

-- `properties[key]`: a key that is not there is put there with the empty text.
unfoldable pub read_at : Text → Option Text → Entries → Text × Entries
unfolding put_entry
read_at key none m = ([], put_entry key [] m)
read_at key (some v) m = (v, m)

unfoldable pub value_at : Text → Entries → Text × Entries
unfolding read_at find_entry
value_at key m = read_at key (find_entry key m) m

-- getProperty; operator[] does the same, and hands out the place instead of the value.
unfoldable pub get_property : Text → Entries → Text × Entries
unfolding value_at to_upper
get_property key m = value_at (to_upper key) m

unfoldable pub set_property : Text → Text → Entries → Entries
unfolding put_entry to_upper
set_property key value m = put_entry (to_upper key) value m

-- operator[], and an assignment to what it returns
unfoldable pub assign_at : Text → Text → Entries → Entries
unfolding value_at to_upper put_entry
assign_at key value m = put_entry (to_upper key) value (value_at (to_upper key) m).1

-- show: the lines that it writes. It writes them to std::cout, whatever `out` is.
unfoldable pub show : Entries → List Text
show [] = []
show ((k, v) ∷ m) = (k ++ b' ' ∷ b'=' ∷ b' ' ∷ v) ∷ show m

pub data PropertyCall : Type 0 where
  get_call : Text → PropertyCall
  set_call : Text → Text → PropertyCall
  assign_call : Text → Text → PropertyCall

unfoldable pub property_call : PropertyCall → Entries → Entries
unfolding get_property set_property assign_at
property_call (get_call key) m = (get_property key m).1
property_call (set_call key value) m = set_property key value m
property_call (assign_call key value) m = assign_at key value m

unfoldable pub run_properties : List PropertyCall → Entries → Entries
unfolding property_call
run_properties [] m = m
run_properties (c ∷ cs) m = run_properties cs (property_call c m)

-- The specification: the value set last under a key that is the same up to case, or the empty text.
abbrev pub after_call : Text → PropertyCall → Text → Text
after_call key (get_call k) old = old
after_call key (set_call k value) old = if text_eq (to_upper k) (to_upper key) then value else old
after_call key (assign_call k value) old =
    if text_eq (to_upper k) (to_upper key) then value else old

abbrev pub last_set : Text → List PropertyCall → Text → Text
last_set key [] old = old
last_set key (c ∷ cs) old = last_set key cs (after_call key c old)

abbrev value_of : Option Text → Text
value_of none = []
value_of (some v) = v

-- what the map holds under a key, where no entry is as good as an empty text
holds : Text → Entries → Text
holds key m = value_of (find_entry key m)

find_entry-put_entry :
    (key k v : Text) (m : Entries)
    → find_entry key (put_entry k v m) ≡ (if text_eq k key then some v else find_entry key m)
unfolding find_entry put_entry
find_entry-put_entry key k v [] = refl
find_entry-put_entry key k v ((j, w) ∷ m) = ground (
  arith,
  text_eq_sound j k,
  text_eq_sound j key,
  text_eq_sound k key,
  text_eq_refl k,
  find_entry-put_entry key k v m,
)

holds-put_entry :
    (key k v : Text) (m : Entries)
    → holds key (put_entry k v m) ≡ (if text_eq k key then v else holds key m)
unfolding holds
holds-put_entry key k v m = ground (arith, find_entry-put_entry key k v m)

holds_none : (k : Text) (m : Entries) → find_entry k m ≡ none → holds k m ≡ []
unfolding holds
holds_none k m missing = ap value_of missing

holds_some : (k : Text) (m : Entries) (v : Text) → find_entry k m ≡ some v → holds k m ≡ v
unfolding holds
holds_some k m v found = ap value_of found

-- Reading gives what the map holds, and leaves what it holds under every key.
read_at-holds :
    (key k : Text) (m : Entries) (o : Option Text)
    → find_entry k m ≡ o
    → ((read_at k o m).0 ≡ holds k m) × (holds key (read_at k o m).1 ≡ holds key m)
unfolding read_at
read_at-holds key k m none missing = (
  sym (holds_none k m missing),
  elim (Bool-cases (text_eq k key)) [
    | inl same ↦
        let e : k ≡ key = text_eq_sound k key same in
        holds-put_entry key k [] m
        ∙ rw same (sym (ap (λ t. holds t m) (sym e) ∙ holds_none k m missing))
    | inr differ ↦ holds-put_entry key k [] m ∙ rw differ
  ],
)
read_at-holds key k m (some v) found = (sym (holds_some k m v found), refl)

value_at-holds :
    (key k : Text) (m : Entries)
    → ((value_at k m).0 ≡ holds k m) × (holds key (value_at k m).1 ≡ holds key m)
unfolding value_at
value_at-holds key k m = read_at-holds key k m (find_entry k m) refl

property_call-after_call :
    (key : Text) (c : PropertyCall) (m : Entries)
    → holds (to_upper key) (property_call c m) ≡ after_call key c (holds (to_upper key) m)
unfolding property_call set_property get_property assign_at
property_call-after_call key (get_call k) m = (value_at-holds (to_upper key) (to_upper k) m).1
property_call-after_call key (set_call k value) m =
    holds-put_entry (to_upper key) (to_upper k) value m
property_call-after_call key (assign_call k value) m =
    holds-put_entry (to_upper key) (to_upper k) value (value_at (to_upper k) m).1
    ∙ rw (value_at-holds (to_upper key) (to_upper k) m).1

holds-last_set :
    (key : Text) (cs : List PropertyCall) (m : Entries)
    → holds (to_upper key) (run_properties cs m) ≡ last_set key cs (holds (to_upper key) m)
unfolding run_properties
holds-last_set key [] m = refl
holds-last_set key (c ∷ cs) m =
    holds-last_set key cs (property_call c m)
    ∙ ap (last_set key cs) (property_call-after_call key c m)

-- After any calls of getProperty, setProperty and operator[] (read or assigned to) on an empty map,
-- getProperty gives the value that was set last under a key which is the same up to case, or the
-- empty text; and asking for the key in lower case gives the same.
pub run_properties-last_set :
    (key : Text) (cs : List PropertyCall)
    → ((get_property key (run_properties cs [])).0 ≡ last_set key cs [])
      × ((get_property (to_lower key) (run_properties cs [])).0 ≡ last_set key cs [])
unfolding get_property holds find_entry
run_properties-last_set key cs =
    let m = run_properties cs [] in
    let value : (value_at (to_upper key) m).0 ≡ last_set key cs [] =
      (value_at-holds [] (to_upper key) m).0 ∙ holds-last_set key cs [] in
    (value, rw (to_upper-to_lower key) value)
