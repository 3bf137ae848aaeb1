-- ===== src/Models/Sql/Tests.antt =====
-- A hostile text literal and an identifier, compiled and read back.
use planrace_subnet.Prelude.{ℕ, ◌≡◌, refl, String, some, List, ◌++◌}
use mathlib.Core.List.{flat_map}
use planrace_subnet.Digest.Payload.{codes}
use planrace_subnet.Models.Texts.{is_safe_identifier}
use planrace_subnet.Models.Sql.{quote_identifier, compile_literal, doubled}
use planrace_subnet.Models.Sql.Quoting.{
  read_token, without_nul, compile_literal-read, quote_identifier-read,
}

abbrev hostile : String
hostile = "a' OR '1'='1"

abbrev hostile_sql : List ℕ
hostile_sql = codes "'a'' OR ''1''=''1'"

compile_literal-read_example :
    read_token 39 (hostile_sql ++ codes " AND") ≡ without_nul (codes hostile) (codes " AND")
unfolding compile_literal doubled flat_map
compile_literal-read_example = compile_literal-read hostile hostile_sql (codes " AND") refl refl

quote_identifier-read_example :
    read_token 34 (quote_identifier "order_id" ++ codes " ASC")
    ≡ some (codes "order_id", codes " ASC")
unfolding is_safe_identifier
quote_identifier-read_example = quote_identifier-read "order_id" (codes " ASC") refl refl

-- The hostile text holds no NUL, so it is read back.
hostile_back : without_nul (codes hostile) (codes " AND") ≡ some (codes hostile, codes " AND")
hostile_back = refl
