-- ===== src/Http/Examples.antt =====
-- The theorems on http/http_conn.h at concrete inputs.
use conv_event.Base.{◌≡◌, refl, [], none, some, codes, text_eq, all_false}
use conv_event.Http.Words.{post, http_1_1}
use conv_event.Http.Filters.{empty_node, match_filter, register_filter, last_is_slash}
use conv_event.Http.Filters.Matching.{match-register_filter, register_filter_drops}
use conv_event.Http.Filters.Separation.{match-register_filter_ne}
use conv_event.Http.Request.{RequestHeader, query, parse_header, done, clear}
use conv_event.Http.Request.Parameters.{query_loops}
use conv_event.Http.Request.Whole.{parse_header_short}

match-register_filter_example :
    match_filter (codes "/a/b") (register_filter (codes "/a/b") 7 empty_node) ≡ some 7
unfolding all_false text_eq
match-register_filter_example = match-register_filter 97 [] [] 98 7 empty_node refl refl refl

register_filter_drops_example :
    match_filter
      (codes "/a/b")
      (register_filter (codes "/a/c") 8 (register_filter (codes "/a/b") 7 empty_node))
    ≡ none
unfolding all_false text_eq
register_filter_drops_example =
    register_filter_drops 97 [] [] [] 98 99 8 (register_filter (codes "/a/b") 7 empty_node) refl
      refl refl refl refl

match-register_filter_ne_example :
    match_filter (codes "/b/x") (register_filter (codes "/a/y") 7 empty_node)
    ≡ match_filter (codes "/b/x") empty_node
unfolding all_false text_eq last_is_slash
match-register_filter_ne_example =
    match-register_filter_ne 97 [] 121 [] 98 [] 120 [] 7 empty_node refl refl refl refl refl refl

query_loops_example : query 1000 (codes "/x&y?a") (codes "a") [] ≡ none
unfolding all_false
query_loops_example = query_loops 1000 (codes "/x") (codes "y?a") (codes "a") [] refl refl refl

abbrev blank_header : RequestHeader
blank_header = record {
  method = post;
  url = [];
  version = http_1_1;
  parameters = [];
  request_headers = [];
}

parse_header_short_example :
    parse_header 0 (codes "G") (clear blank_header) ≡ done (clear blank_header)
parse_header_short_example = parse_header_short 0 71 blank_header refl
