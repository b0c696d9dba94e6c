-- ===== src/Ir/Names.antt =====
-- boa/contracts/vyper/ir_executor.py: the texts of the names in the generated code, and that code runs
-- the same under them where no two of its names have one text.
pub mod Printed
use titanoboa.Prelude.{
  ℕ, zero, suc, ◌/◌, ◌%◌, String, ◌≡◌, sym, ap, ◌∙◌, inl, inr, Bool, true, false, ◌&&◌, ◌||◌, not,
  List, [], ◌∷◌, map, arith, nat_beq, if◌then◌else◌, Bool-cases, ◌==◌, nat_eq, string_eq, bytes_eq,
  pair_eq, ltb, ◌-◌,
}
use titanoboa.Ir.{PyName, user, temp, name_beq, name_beq→eq, name_eq}
use titanoboa.Ir.Python.{
  PyExpr, literal, local, call, Stmt, Block, assign, bare, if_block, if_else_block, for_range,
  assert_le, break_stmt, continue_stmt, pass_stmt, end_block, then_do,
}

abbrev pub joined : String → String → String
joined String.[] t = t
joined (String.◌∷◌ c s) t = String.◌∷◌ c (joined s t)

abbrev digit_text : ℕ → String
digit_text n =
    if nat_beq n 0
    then "0"
    else if nat_beq n 1
    then "1"
    else if nat_beq n 2
    then "2"
    else if nat_beq n 3
    then "3"
    else if nat_beq n 4
    then "4"
    else if nat_beq n 5
    then "5"
    else if nat_beq n 6
    then "6"
    else if nat_beq n 7
    then "7"
    else if nat_beq n 8
    then "8"
    else "9"

-- a number in decimal, on fuel of one step more than the number
abbrev decimal : ℕ → ℕ → String
decimal zero n = ""
decimal (suc fuel) n = elim (ltb n 10) [
  | true ↦ digit_text n
  | false ↦ joined (decimal fuel (n / 10)) (digit_text (n % 10))
]

-- `out_name` of a variable, and `freshvar` without its hint
unfoldable pub out_name : PyName → String
out_name (user x slot) =
    joined "__user_"
      (joined x (if nat_beq slot 0 then "" else joined "_" (decimal (suc slot) slot)))
out_name (temp i) = joined "var__" (decimal (suc i) i)

-- a variable that is known by its text alone
abbrev pub by_text : PyName → PyName
by_text p = user (out_name p) 0

abbrev print_expr : PyExpr → PyExpr
print_expr (literal n) = literal n
print_expr (local x) = local (by_text x)
print_expr (call p args) = call p (map by_text args)

-- the code with its names as their texts
unfoldable mutual
  pub print_stmt : Stmt → Stmt
  print_stmt (assign x e) = assign (by_text x) (print_expr e)
  print_stmt (bare e) = bare (print_expr e)
  print_stmt (if_block test body) = if_block (by_text test) (print body)
  print_stmt (if_else_block test body orelse) =
      if_else_block (by_text test) (print body) (print orelse)
  print_stmt (for_range x start rounds body) =
      for_range (by_text x) (by_text start) (by_text rounds) (print body)
  print_stmt (assert_le x bound) = assert_le (by_text x) bound
  print_stmt break_stmt = break_stmt
  print_stmt continue_stmt = continue_stmt
  print_stmt pass_stmt = pass_stmt

  pub print : Block → Block
  print end_block = end_block
  print (then_do s b) = then_do (print_stmt s) (print b)

abbrev member : PyName → List PyName → Bool
member p [] = false
member p (q ∷ names) = name_beq q p || member p names

abbrev all_members : List PyName → List PyName → Bool
all_members [] names = true
all_members (p ∷ ps) names = member p names && all_members ps names

abbrev expr_names : PyExpr → List PyName → Bool
expr_names (literal n) names = true
expr_names (local x) names = member x names
expr_names (call p args) names = all_members args names

-- all names of the code are in a list
unfoldable mutual
  pub stmt_within : Stmt → List PyName → Bool
  stmt_within (assign x e) names = member x names && expr_names e names
  stmt_within (bare e) names = expr_names e names
  stmt_within (if_block test body) names = member test names && within body names
  stmt_within (if_else_block test body orelse) names =
      member test names && (within body names && within orelse names)
  stmt_within (for_range x start rounds body) names =
      member x names && (member start names && (member rounds names && within body names))
  stmt_within (assert_le x bound) names = member x names
  stmt_within break_stmt names = true
  stmt_within continue_stmt names = true
  stmt_within pass_stmt names = true

  pub within : Block → List PyName → Bool
  within end_block names = true
  within (then_do s b) names = stmt_within s names && within b names

abbrev apart_from : PyName → List PyName → Bool
apart_from p [] = true
apart_from p (q ∷ names) = (name_beq p q || not (out_name p == out_name q)) && apart_from p names

-- no two names of a list have one text
abbrev pub apart : List PyName → List PyName → Bool
apart [] all = true
apart (p ∷ names) all = apart_from p all && apart names all

apart_from_lem :
    (p q : PyName) (names : List PyName)
    → apart_from p names ≡ true
    → member q names ≡ true
    → out_name p ≡ out_name q
    → p ≡ q
apart_from_lem p q [] a h e = absurd (cc h)
apart_from_lem p q (r ∷ names) a h e = elim (Bool-cases (name_beq r q)) [
  | inl same ↦
      let r_is : r ≡ q = name_beq→eq r q same in
      let texts : (out_name p == out_name r) ≡ true =
        (string_eq.beq_iff (out_name p) (out_name r)).1 (e ∙ ap out_name (sym r_is)) in
      elim (Bool-cases (name_beq p r)) [
        | inl here ↦ name_beq→eq p r here ∙ r_is
        | inr differ ↦ absurd (cc (rw (differ, texts) at a))
      ]
  | inr other ↦ apart_from_lem p q names (ground (arith, a)) (rw other at h) e
]

apart_lem :
    (p q : PyName) (names all : List PyName)
    → apart names all ≡ true
    → member p names ≡ true
    → member q all ≡ true
    → out_name p ≡ out_name q
    → p ≡ q
apart_lem p q [] all a h k e = absurd (cc h)
apart_lem p q (r ∷ names) all a h k e = elim (Bool-cases (name_beq r p)) [
  | inl same ↦
      let r_is : r ≡ p = name_beq→eq r p same in
      sym r_is ∙ apart_from_lem r q all (ground (arith, a)) k (ap out_name r_is ∙ e)
  | inr other ↦ apart_lem p q names all (ground (arith, a)) (rw other at h) k e
]
