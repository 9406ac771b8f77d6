-- ===== src/External/Sample.antt =====
-- A simple implementation of the external operations, without escapes and case folding, which
-- meets their documented behaviour. The examples and the witnesses use it.
use kubedns.Prelude.{
  leb, nat_beq, if◌then◌else◌, nat_beq_iff, Bool-cases, nat_eq, ◌==◌, length, is_empty, Text, text,
  text_beq, text_beq_iff, text_eq, dot, has_suffix_dot, ℕ, ◌≤◌, ◌≡◌, refl, sym, ap, ◌∙◌, subst, ◌≢◌,
  inl, inr, Bool, true, false, ◌&&◌, ◌||◌, Option, none, some, List, [], ◌∷◌, ◌++◌, arith,
}
use mathlib.Core.List.{append-nil, append_assoc}
use kubedns.Api.{Condition}
use kubedns.External.{ParsedIp, no_ip, ipv4, ipv6, External, Documented}

unfoldable pub sample_fqdn : Text → Text
unfolding has_suffix_dot
sample_fqdn s = if has_suffix_dot s then s else s ++ dot ∷ []

-- Is `p` a tail of `c` that begins at a label?
unfoldable pub is_tail : Text → Bool → Text → Bool
is_tail p start [] = false
is_tail p start (c ∷ s) = (start && text_beq p (c ∷ s)) || is_tail p (nat_beq c dot) s

unfoldable pub sample_sub_domain : Text → Text → Bool
unfolding sample_fqdn is_tail
sample_sub_domain p c =
    text_beq (sample_fqdn p) (text ".") || is_tail (sample_fqdn p) true (sample_fqdn c)

unfoldable pub split_dots : Text → Text → List Text
split_dots label [] = label ∷ []
split_dots label (c ∷ s) = elim (nat_beq c dot) [
  | true ↦ label ∷ split_dots [] s
  | false ↦ split_dots (label ++ c ∷ []) s
]

unfoldable pub sample_split : Text → List Text
unfolding split_dots
sample_split s = if is_empty s then [] else split_dots [] s

unfoldable pub sample_find : List Condition → Text → Option Condition
sample_find [] kind = none
sample_find (c ∷ cs) kind = if c.kind == kind then some c else sample_find cs kind

unfoldable pub sample_set : List Condition → Condition → List Condition
sample_set [] c = c ∷ []
sample_set (d ∷ cs) c = if d.kind == c.kind then c ∷ cs else d ∷ sample_set cs c

unfoldable pub sample_remove : List Condition → Text → List Condition
sample_remove [] kind = []
sample_remove (d ∷ cs) kind =
    let rest = sample_remove cs kind in if d.kind == kind then rest else d ∷ rest

unfoldable pub contains_byte : ℕ → Text → Bool
contains_byte b [] = false
contains_byte b (c ∷ s) = nat_beq b c || contains_byte b s

-- A text with a dot stands for an IPv4 address, another with a colon for an IPv6 address.
abbrev sample_ip : Text → ParsedIp
sample_ip s = if contains_byte b'.' s then ipv4 else if contains_byte b':' s then ipv6 else no_ip

abbrev sample_address : Text → Option Text
sample_address s = if contains_byte b'@' s then none else some (text "mail: missing '@'")

abbrev pub sample : External
sample = record {
  is_fqdn = has_suffix_dot;
  fqdn = sample_fqdn;
  is_sub_domain = sample_sub_domain;
  split_domain_name = sample_split;
  ref_object_key_for = λ m ref. record { namespace = m.namespace; name = ref };
  is_domain_name = λ s. leb (length s) 255;
  parse_ip = sample_ip;
  parse_address = sample_address;
  find_status_condition = sample_find;
  set_status_condition = sample_set;
  remove_status_condition = sample_remove;
}

has_suffix_dot-snoc : (s : Text) → has_suffix_dot (s ++ dot ∷ []) ≡ true
unfolding has_suffix_dot
has_suffix_dot-snoc [] = refl
has_suffix_dot-snoc (c ∷ []) = refl
has_suffix_dot-snoc (c ∷ d ∷ s) = has_suffix_dot-snoc (d ∷ s)

sample_fqdn-dotted : (s : Text) → has_suffix_dot (sample_fqdn s) ≡ true
unfolding sample_fqdn
sample_fqdn-dotted s = elim (Bool-cases (has_suffix_dot s)) [
  | inl e ↦ rw e e
  | inr e ↦ rw e (has_suffix_dot-snoc s)
]

length-tail-le : (p s : Text) (start : Bool) → is_tail p start s ≡ true → length p ≤ length s
unfolding is_tail
length-tail-le p [] start h = cc
length-tail-le p (c ∷ s) start h = ground (
  arith,
  text_beq_iff p (c ∷ s),
  length-tail-le p s (nat_beq c dot),
  ap (length {A = ℕ}) {x = p} {y = c ∷ s},
)

length-dotted-pos : (s : Text) → has_suffix_dot s ≡ true → 1 ≤ length s
unfolding has_suffix_dot
length-dotted-pos [] h = cc
length-dotted-pos (c ∷ s) h = omega arith

sample_length :
    (p c : Text) → sample_sub_domain p c ≡ true → length (sample_fqdn p) ≤ length (sample_fqdn c)
unfolding sample_sub_domain
sample_length p c h = elim (Bool-cases (text_beq (sample_fqdn p) (text "."))) [
  | inl e ↦
      let root = ap (length {A = ℕ}) ((text_beq_iff (sample_fqdn p) (text ".")).0 e) in
      omega (arith, root, length-dotted-pos (sample_fqdn c) (sample_fqdn-dotted c))
  | inr e ↦ length-tail-le (sample_fqdn p) (sample_fqdn c) true (rw e at h)
]

has_suffix_dot-append :
    (s : Text) (c : ℕ) (t : Text) → has_suffix_dot (s ++ c ∷ t) ≡ has_suffix_dot (c ∷ t)
unfolding has_suffix_dot
has_suffix_dot-append [] c t = refl
has_suffix_dot-append (b ∷ []) c t = refl
has_suffix_dot-append (b ∷ d ∷ s) c t = has_suffix_dot-append (d ∷ s) c t

-- The last label is not empty and does not end in a dot.
abbrev IsLabel : Text → Type 0
IsLabel l = (l ≢ []) × (has_suffix_dot l ≡ false)

IsLabel-tail : (s : Text) → has_suffix_dot (dot ∷ s) ≡ false → IsLabel s
unfolding has_suffix_dot
IsLabel-tail [] h = cc
IsLabel-tail (c ∷ s) h = ((λ e. cc), h)

split_dots-ne-nil : (label s : Text) → split_dots label s ≢ []
unfolding split_dots
split_dots-ne-nil label [] e = cc
split_dots-ne-nil label (c ∷ s) e = elim (Bool-cases (nat_beq c dot)) [
  | inl h ↦ cc (rw (h, split_dots) at e)
  | inr h ↦ split_dots-ne-nil (label ++ c ∷ []) s (rw (h, split_dots) at e)
]

-- After a dot the labels go on; the rest is again a text whose last label is wanted.
after_dot :
    (label s l : Text) (ls : List Text)
    → label ∷ split_dots [] s ≡ ls ++ l ∷ []
    → (ms : List Text) × (split_dots [] s ≡ ms ++ l ∷ [])
after_dot label s l [] e = absurd (split_dots-ne-nil [] s (cc))
after_dot label s l (k ∷ ls) e = (ls, cc)

split_dots-last :
    (label s l : Text) (ls : List Text)
    → IsLabel (label ++ s)
    → split_dots label s ≡ ls ++ l ∷ []
    → IsLabel l
unfolding split_dots
split_dots-last label [] l [] h e =
    let same : label ≡ l = cc in subst IsLabel (append-nil label ∙ same) h
split_dots-last label [] l (k ∷ []) h e = cc
split_dots-last label [] l (k ∷ j ∷ ls) h e = cc
split_dots-last label (c ∷ s) l ls h e = elim (Bool-cases (nat_beq c dot)) [
  | inl eq ↦
      let (ms, e') = after_dot label s l ls (rw (eq, split_dots) at e) in
      let c_dot : c ≡ dot = (nat_beq_iff c dot).0 eq in
      split_dots-last [] s l ms
        (IsLabel-tail s (sym (has_suffix_dot-append label dot s) ∙ rw c_dot at (h.1))) e'
  | inr ne ↦
      split_dots-last (label ++ c ∷ []) s l ls (rw (append_assoc label (c ∷ []) s) h)
        (rw (ne, split_dots) at e)
]

sample_split_last :
    (s l : Text) (ls : List Text)
    → has_suffix_dot s ≡ false
    → sample_split s ≡ ls ++ l ∷ []
    → IsLabel l
unfolding sample_split
sample_split_last [] l [] h e = cc
sample_split_last [] l (k ∷ ls) h e = cc
sample_split_last (c ∷ s) l ls h e = split_dots-last [] (c ∷ s) l ls ((λ n. cc), h) e

sample_find-set :
    (cs : List Condition) (c : Condition) (kind : Text)
    → sample_find (sample_set cs c) kind ≡ (if c.kind == kind then some c else sample_find cs kind)
unfolding sample_find sample_set
sample_find-set [] c kind = refl
sample_find-set (d ∷ cs) c kind = ground (
  arith,
  text_beq_iff d.kind c.kind,
  text_beq_iff c.kind kind,
  text_beq_iff d.kind kind,
  sample_find-set cs c kind,
)

sample_find-remove :
    (cs : List Condition) (removed kind : Text)
    → sample_find (sample_remove cs removed) kind
      ≡ (if removed == kind then none else sample_find cs kind)
unfolding sample_find sample_remove
sample_find-remove [] removed kind = ground arith
sample_find-remove (d ∷ cs) removed kind = ground (
  arith,
  text_beq_iff d.kind removed,
  text_beq_iff removed kind,
  text_beq_iff d.kind kind,
  sample_find-remove cs removed kind,
)

pub sample-Documented : Documented sample
sample-Documented = record {
  fqdn_suffix = λ s h. h;
  fqdn_lem = λ s. unfold sample_fqdn in refl;
  is_fqdn-fqdn = sample_fqdn-dotted;
  is_sub_domain_length = sample_length;
  split_domain_name_last = sample_split_last;
  find-set_status_condition = sample_find-set;
  find-remove_status_condition = sample_find-remove;
  ref_object_key_for_lem = λ m ref. refl;
}
