-- ===== src/Proxy/Statement.antt =====
-- `classify_statement` of pgcluster/src/proxy/protocol.rs. `trim_upper` is `trim_start` and then
-- `to_uppercase`.
use pgcluster.Prelude.{String, not, ◌&&◌, ◌||◌, if◌then◌else◌}
use text.Mathlib.Text.{starts_with}
use pgcluster.Text.{contains}
use pgcluster.Proxy.Session.{StatementIntent, write, read, set_local}

-- The intent of a statement in capitals that begins with WITH.
abbrev pub classify_with : String → StatementIntent
classify_with upper =
    let has_select = contains upper "SELECT" in
    let has_write =
      contains upper "INSERT"
      || contains upper "UPDATE"
      || contains upper "DELETE"
      || contains upper "MERGE" in
    if has_select && not has_write then read else write

unfoldable pub classify_statement : (String → String) → String → StatementIntent
classify_statement trim_upper sql =
    let upper = trim_upper sql in
    if starts_with upper "SELECT" || starts_with upper "TABLE" || starts_with upper "VALUES"
    then read
    else if starts_with upper "WITH"
    then classify_with upper
    else if starts_with upper "SET"
    then set_local
    else if starts_with upper "BEGIN READ ONLY"
    then read
    else write
