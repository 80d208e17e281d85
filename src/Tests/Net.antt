-- ===== src/Tests/Net.antt =====
-- Runs of the models of src/net.
use simple_coder.Prelude.{Bytes, [], arith, codes, false, refl, some, to_string, ◌∷◌, ◌≡◌, ◌⊎◌}
use simple_coder.Util.Utf8.{encode}
use simple_coder.Net.Html.{scan_all, html_to_text, is_html, decode_entities, collapse_ws}
use simple_coder.Net.Html.Entity.{append_entity}
use simple_coder.Net.Html.Tidy.{IsTidy, solid_of, collapse_ws-IsTidy, html_to_text-IsTidy}
use simple_coder.Net.Html.Numbers.{append_entity-encode}

abbrev page : Bytes
page = codes "<p>a &lt; b\n  c</p><script>x < y</script><div>end"

page_runs : html_to_text page (codes "text/HTML") ≡ some (codes "a < b c\n\nend")
unfolding html_to_text scan_all
page_runs = refl

hex_runs : decode_entities (codes "&#x41;&#x;&bogus;") ≡ some (codes "A&#x;&bogus;")
unfolding decode_entities scan_all
hex_runs = refl

html_to_text-IsTidy_example :
    (t : Bytes) × (html_to_text page [] ≡ some t)
    × ((is_html page [] ≡ false) × (t ≡ page) ⊎ IsTidy t)
html_to_text-IsTidy_example = html_to_text-IsTidy page []

collapse_ws-IsTidy_example :
    let s = codes " a \n\n\n b" in IsTidy (collapse_ws s) × (solid_of (collapse_ws s) ≡ solid_of s)
collapse_ws-IsTidy_example = collapse_ws-IsTidy (codes " a \n\n\n b")

append_entity-encode_example : append_entity (b'#' ∷ to_string 8364) ≡ encode 8364
append_entity-encode_example = append_entity-encode 8364 (omega arith)
