-- ===== src/Directives/Examples.antt =====
-- Documents with a directive of each form.
use agent_work_relay.Prelude.{
  ◌≡◌, ◌⊎◌, refl, String, some, ok, err, splitlines, pieces, without_last, partition, starts_with,
  strip, strip_code, strip_code_left, strip_code_right, join, keep, contains, all_codes, is_blank,
}
use agent_work_relay.Contracts.{refinement, plan, Directive}
use agent_work_relay.Directives.Frontmatter.{
  directive_error, after_open, before_close, get_text, awr_entries, find_awr, parse_awr_mapping,
  input_mapping,
}
use agent_work_relay.Directives.Parse.{
  bound_plan_directive, match_directive, from_text, asks_execution, asks_plan, directive_of_mapping,
  stripped, parse_input_directive, parse_alias, parse_directive, strip_directive,
}
use agent_work_relay.Directives.Bound.{IsBound, IsPlanInput, IsAlias, parse_directive-IsBound}

abbrev document : String
document =
    "\n@input\n---\nawr:\n  # note\n  intent: \"refinement.plan\"\n  parent_work_order_id: w-1\n---\n\nText\n"

abbrev refined : Directive
refined = record {
  kind = refinement;
  action = plan;
  parent_work_order_id = some "w-1";
  form = "input";
}

document_parses : parse_directive document ≡ ok refined
unfolding parse_directive splitlines pieces without_last from_text parse_input_directive
    input_mapping after_open before_close parse_awr_mapping find_awr awr_entries partition
    directive_of_mapping bound_plan_directive strip is_blank keep stripped join starts_with contains
    strip_code strip_code_right strip_code_left get_text asks_execution asks_plan
document_parses = refl

document_body : strip_directive document ≡ ok "Text"
unfolding strip_directive splitlines pieces without_last from_text after_open before_close strip
    is_blank strip_code_left join
document_body = refl

alias_parses :
    parse_directive "@awr  refinement.plan parent=w:2\nText"
    ≡ ok (record refined { parent_work_order_id = some "w:2"; form = "awr_alias" })
unfolding parse_directive splitlines pieces without_last from_text parse_alias match_directive
    bound_plan_directive strip is_blank keep stripped starts_with all_codes
alias_parses = refl

orphan_refused : parse_directive "@awr refinement.plan" ≡ err directive_error
unfolding parse_directive splitlines pieces without_last from_text parse_alias match_directive
    bound_plan_directive strip is_blank keep stripped starts_with
orphan_refused = refl

parse_directive-IsBound_example :
    IsBound refined
    × (IsPlanInput (from_text (splitlines document)) refined
        ⊎ IsAlias (from_text (splitlines document)) refined)
parse_directive-IsBound_example = parse_directive-IsBound document document_parses
