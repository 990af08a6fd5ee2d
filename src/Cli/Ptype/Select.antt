-- ===== src/Cli/Ptype/Select.antt =====
-- A type whose items are written as `name(value)`.
use ucli.Base.{
  ℕ, suc, ◌+◌, ◌-◌, ◌<◌, ◌%◌, ◌^◌, Bool, true, false, List, [], ◌∷◌, ◌++◌, Option, none, some, All,
  ltb, ◌==◌, if◌then◌else◌, length, length-append, take-length, drop-append, append_assoc,
  Bool-cases, ◌≡◌, inl, inr, refl, sym, ap, ◌∙◌, arith,
}
use ucli.Base.Int.{is_zero}
use ucli.Base.Run.{ok, ◌>>=◌, deref}
use ucli.Lub.Ctype.{Bytes}
use ucli.Lub.Text.{dupn, nocasecmp}
use ucli.Lub.Argv.{Argv, get_count, get_arg}
use ucli.Cli.Ptype.{
  Ptype, select, strchr, item_name, value_len, value_at, item_value, select_get_name,
  select_get_value, select_loop, check_method, preprocessed, validate_or_translate,
}

-- the character does not stand in the text
abbrev pub Lacks : ℕ → Bytes → Type 0
Lacks c s = All (λ d. (d == c) ≡ false) s

-- A name and a value that an item can be made of; the lengths are those of a `size_t`.
pub record IsItem (item : Bytes × Bytes) : Type 0 where
  pub name_open : Lacks b'(' item.0
  pub name_close : Lacks b')' item.0
  pub value_close : Lacks b')' item.1
  pub small : length item.1 < 2 ^ 64

abbrev pub item_text : Bytes × Bytes → Bytes
item_text (name, value) = name ++ (b'(' ∷ (value ++ (b')' ∷ [])))

strchr-append : (c : ℕ) (s t : Bytes) → Lacks c s → strchr c (s ++ (c ∷ t)) ≡ some (length s)
unfolding strchr
strchr-append c [] t h = let here : (c == c) ≡ true = ground arith in rw here refl
strchr-append c (d ∷ s) t (n, h) = rw n (rw (strchr-append c s t h) refl)

Lacks-append : (c : ℕ) (s t : Bytes) → Lacks c s → Lacks c t → Lacks c (s ++ t)
Lacks-append c [] t hs ht = ht
Lacks-append c (d ∷ s) t (n, hs) ht = (n, Lacks-append c s t hs ht)

item_name-item_text :
    (item : Bytes × Bytes) → IsItem item → item_name (item_text item) ≡ ok (some item.0)
unfolding item_name dupn
item_name-item_text (name, value) i =
    let arg = item_text (name, value) in
    let at = strchr-append b'(' name (value ++ (b')' ∷ [])) i.name_open in
    let inside : ltb (length name) (length arg) ≡ true =
      ground (arith, length-append name (b'(' ∷ (value ++ (b')' ∷ [])))) in
    rw at (rw inside (rw take-length refl))

item_value-item_text :
    (item : Bytes × Bytes) → IsItem item → item_value (item_text item) ≡ ok (some item.1)
unfolding item_value value_len value_at dupn
item_value-item_text (name, value) i =
    let arg = item_text (name, value) in
    let at = strchr-append b'(' name (value ++ (b')' ∷ [])) i.name_open in
    let parted : (name ++ (b'(' ∷ value)) ++ (b')' ∷ []) ≡ arg =
      append_assoc name (b'(' ∷ value) (b')' ∷ []) in
    let lacks = Lacks-append b')' name (b'(' ∷ value) i.name_close (refl, i.value_close) in
    let close : strchr b')' arg ≡ some (length name + suc (length value)) =
      ap (strchr b')') (sym parted)
      ∙ strchr-append b')' (name ++ (b'(' ∷ value)) [] lacks
      ∙ ap some (length-append name (b'(' ∷ value)) in
    let len : (length name + suc (length value) + 2 ^ 64 - (length name + 1)) % 2 ^ 64
        ≡ length value =
      omega (arith, i.small) in
    let inside : ltb (length value) (length arg) ≡ true = ground (
      arith,
      length-append name (b'(' ∷ (value ++ (b')' ∷ []))),
      length-append value (b')' ∷ []),
    ) in
    rw (at, close)
      (rw len
        (rw inside (rw (drop-append name (b'(' ∷ (value ++ (b')' ∷ []))) 1) (rw take-length refl))))

-- The items of the vector from `i` on are these.
abbrev pub HasItems : Argv → ℕ → List (Bytes × Bytes) → Type 0
HasItems items i [] = Unit
HasItems items i (item ∷ rest) =
    ((get_arg items i ≡ some (item_text item)) × IsItem item) × HasItems items (i + 1) rest

-- What the first of the items with the text for its name, in upper or lower case, stands for: its value,
-- or its name as it is written.
abbrev pub choice : Bytes → Bool → List (Bytes × Bytes) → Option Bytes
choice text translate [] = none
choice text translate ((name, value) ∷ rest) =
    let later = choice text translate rest in
    if is_zero (nocasecmp text name) then some (if translate then value else name) else later

pub get_name-item :
    (items : Argv) (i : ℕ) (item : Bytes × Bytes)
    → get_arg items i ≡ some (item_text item)
    → IsItem item
    → select_get_name items i ≡ ok (some item.0)
unfolding select_get_name
get_name-item items i item e h = rw (e, select_get_name) (item_name-item_text item h)

get_value-item :
    (items : Argv) (i : ℕ) (item : Bytes × Bytes)
    → get_arg items i ≡ some (item_text item)
    → IsItem item
    → select_get_value items i ≡ ok (some item.1)
unfolding select_get_value
get_value-item items i item e h = rw (e, select_get_value) (item_value-item_text item h)

chosen :
    (translate : Bool) (name value : Bytes)
    → (if translate then some value else some name) ≡ some (if translate then value else name)
chosen true name value = refl
chosen false name value = refl

select_loop-choice :
    (items : Argv) (text : Bytes) (translate : Bool) (i : ℕ) (rest : List (Bytes × Bytes))
    → HasItems items i rest
    → select_loop items text translate (length rest) i ≡ ok (choice text translate rest)
unfolding select_loop
select_loop-choice items text translate i [] h = refl
select_loop-choice items text translate i ((name, value) ∷ rest) ((e, item), h) =
    let got_name = get_name-item items i (name, value) e item in
    let got_value = get_value-item items i (name, value) e item in
    elim (Bool-cases (is_zero (nocasecmp text name))) [
      | inl t ↦ rw (got_name, got_value, select_loop) (rw t (ap ok (chosen translate name value)))
      | inr f ↦
          rw (got_name, got_value, select_loop)
            (rw f (select_loop-choice items text translate (i + 1) rest h))
    ]

-- A type of the method `select` whose items are each of the form name(value), where no bracket stands
-- in a name and no closing one in a value: `ucli_ptype_translate` and `ucli_ptype_validate` do not
-- fail, and give for a text the value, or the name, of the first item that has it for its name after
-- the preprocessing, in upper or lower case, and NULL if there is none.
pub validate_or_translate-choice :
    (regexec : Bytes → Bytes → Bool) (this : Ptype) (pattern text : Bytes) (translate : Bool)
    (items : List (Bytes × Bytes))
    → this.method ≡ select
    → this.pattern ≡ some pattern
    → get_count this.items ≡ length items
    → HasItems this.items 0 items
    → validate_or_translate regexec this text translate
      ≡ ok (choice (preprocessed this.preprocess text) translate items)
unfolding validate_or_translate check_method
validate_or_translate-choice regexec this pattern text translate items m p n h =
    let found =
      select_loop-choice this.items (preprocessed this.preprocess text) translate 0 items h in
    ap
      (λ q. deref q >>= λ pattern'.
        check_method regexec this pattern' (preprocessed this.preprocess text) translate
          this.method)
      p
    ∙ ap (check_method regexec this pattern (preprocessed this.preprocess text) translate) m
    ∙ ap (λ k. select_loop this.items (preprocessed this.preprocess text) translate k 0) n
    ∙ found
