-- ===== src/Governor/Access.antt =====
-- The addresses of the control plane in usage-governor/core.ts. `URLSearchParams` writes the role and
-- the digits as they are: the roles have letters and dashes only.
use dotconfig.Base.{
  ℕ, ◌≤◌, ◌≡◌, refl, inl, inr, Bool, true, false, ◌&&◌, ◌||◌, Option, none, some, List, [], ◌∷◌,
  ◌++◌, Text, codes, text_eq, leb, length, every, any, is_digit, number_from, number_from-decimal,
  decimal, decimal-digits, decimal-cons, max_safe_integer, arith, Bool-cases, if◌then◌else◌, Number,
  int, pos,
}

abbrev pub checked_port : ℕ → Option ℕ
checked_port n = if leb n max_safe_integer && leb 1 n && leb n 65_535 then some n else none

-- `Number(portValue)` is the number of its digits where `/^\d+$/u` matches.
unfoldable pub control_plane_port : Option Text → Option ℕ
control_plane_port none = checked_port 43_121
control_plane_port (some s) =
    if leb 1 (length s) && every is_digit s then checked_port (number_from 0 s) else none

unfoldable pub control_plane_usage_url : Option Text → Option Text
unfolding control_plane_port
control_plane_usage_url port_value = elim (control_plane_port port_value) [
  | none ↦ none
  | some port ↦ some (codes "http://127.0.0.1:" ++ decimal port ++ codes "/v1/usage")
]

unfoldable pub control_plane_usage_control_url : Option Text → Option Text
unfolding control_plane_usage_url
control_plane_usage_control_url port_value = elim (control_plane_usage_url port_value) [
  | none ↦ none
  | some url ↦ some (url ++ codes "/control")
]

-- `AUTONOMOUS_ROLE`
abbrev pub autonomous_roles : List Text
autonomous_roles =
    codes "general"
    ∷ codes "reviewer"
    ∷ codes "yielduck-operator"
    ∷ codes "moneymentum-operator"
    ∷ []

abbrev pub is_autonomous_role : Text → Bool
is_autonomous_role role = any (text_eq role) autonomous_roles

abbrev pub role_at : Text → Text → Text
role_at cwd home =
    if text_eq cwd (home ++ codes "/code/dataclique/yielduck")
    then codes "yielduck-operator"
    else if text_eq cwd (home ++ codes "/code/dataclique/moneymentum")
    then codes "moneymentum-operator"
    else if text_eq cwd (home ++ codes "/code/dataclique")
        || text_eq cwd (home ++ codes "/code/st0x")
        || text_eq cwd (home ++ codes "/code/0xgleb")
    then codes "reviewer"
    else codes "general"

unfoldable pub autonomous_role_for_cwd : Text → Option Text → Text
unfolding text_eq
autonomous_role_for_cwd cwd none = codes "general"
autonomous_role_for_cwd cwd (some []) = codes "general"
autonomous_role_for_cwd cwd (some (c ∷ home)) = role_at cwd (c ∷ home)

pub data RequestKind : Type 0 where
  turn workflow : RequestKind

-- Whether the tokens may be asked for: none for a turn, 4,000 to 5,000,000 for a workflow.
unfoldable pub tokens_allowed : RequestKind → Option Number → Bool
tokens_allowed turn none = true
tokens_allowed turn (some number) = false
tokens_allowed workflow (some (int (pos n))) =
    leb n max_safe_integer && leb 4_000 n && leb n 5_000_000
tokens_allowed workflow _ = false

abbrev pub amount : Option Number → ℕ
amount (some (int (pos n))) = n
amount _ = 0

abbrev pub request_parameters : RequestKind → Option Number → Text
request_parameters turn tokens = []
request_parameters workflow tokens =
    codes "&kind=workflow&requestedTokens=" ++ decimal (amount tokens)

unfoldable pub control_plane_usage_admission_url :
    Option Text → Text → RequestKind → Option Number → Option Text
unfolding control_plane_usage_url tokens_allowed text_eq
control_plane_usage_admission_url port_value role kind tokens =
    elim (control_plane_usage_url port_value) [
      | none ↦ none
      | some url ↦
          if is_autonomous_role role && tokens_allowed kind tokens
          then some (url ++ codes "/admit?role=" ++ role ++ request_parameters kind tokens)
          else none
    ]

-- A port is what its decimal form is read as.
pub control_plane_port-decimal :
    (n : ℕ) → 1 ≤ n → n ≤ 65_535 → control_plane_port (some (decimal n)) ≡ some n
unfolding control_plane_port
control_plane_port-decimal n low high =
    let (d, ds, e) = decimal-cons n in
    let long : leb 1 (length (decimal n)) ≡ true = rw e (ground arith) in
    rw (long, decimal-digits n, number_from-decimal n) (ground arith)

abbrev pub IsPort : Option ℕ → Type 0
IsPort none = Unit
IsPort (some n) = (1 ≤ n) × (n ≤ 65_535)

checked_port-IsPort : (n : ℕ) → IsPort (checked_port n)
checked_port-IsPort n = elim (Bool-cases (leb n max_safe_integer && leb 1 n && leb n 65_535)) [
  | inl e ↦ rw e (ground arith, ground arith)
  | inr e ↦ rw e tt
]

-- Whatever the environment says, a port that is used is one from 1 to 65535.
pub control_plane_port-IsPort : (v : Option Text) → IsPort (control_plane_port v)
unfolding control_plane_port
control_plane_port-IsPort none = checked_port-IsPort 43_121
control_plane_port-IsPort (some s) = elim (Bool-cases (leb 1 (length s) && every is_digit s)) [
  | inl e ↦ rw e (checked_port-IsPort (number_from 0 s))
  | inr e ↦ rw e tt
]

role_of_choice :
    (a b c : Bool)
    → is_autonomous_role (
        if a
        then codes "yielduck-operator"
        else if b
        then codes "moneymentum-operator"
        else if c
        then codes "reviewer"
        else codes "general")
      ≡ true
unfolding text_eq
role_of_choice true b c = refl
role_of_choice false true c = refl
role_of_choice false false true = refl
role_of_choice false false false = refl

autonomous_role_for_cwd-is_autonomous_role :
    (cwd : Text) (home : Option Text) → is_autonomous_role (autonomous_role_for_cwd cwd home) ≡ true
unfolding autonomous_role_for_cwd text_eq
autonomous_role_for_cwd-is_autonomous_role cwd none = refl
autonomous_role_for_cwd-is_autonomous_role cwd (some []) = refl
autonomous_role_for_cwd-is_autonomous_role cwd (some (c ∷ home)) = role_of_choice _ _ _

-- Where the control plane has an address, a turn can be admitted in every directory: the role of the
-- directory is one that the address of admissions accepts.
pub admission_url-of_cwd :
    (port_value : Option Text) (cwd : Text) (home : Option Text) (url : Text)
    → control_plane_usage_url port_value ≡ some url
    → control_plane_usage_admission_url port_value (autonomous_role_for_cwd cwd home) turn none
      ≡ some (url ++ codes "/admit?role=" ++ autonomous_role_for_cwd cwd home ++ [])
unfolding control_plane_usage_admission_url tokens_allowed
admission_url-of_cwd port_value cwd home url h =
    rw (h, control_plane_usage_admission_url, autonomous_role_for_cwd-is_autonomous_role cwd home)
      refl
