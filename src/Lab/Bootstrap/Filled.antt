-- ===== src/Lab/Bootstrap/Filled.antt =====
-- What `write_bootstrap` of tools/owasp-crs-lab.py has written.
use envoy_modsecurity.Prelude.{
  ℕ, ◌≡◌, refl, sym, ap, ◌∙◌, false, List, [], ◌∷◌, ◌++◌, some, arith, nat_eq,
}
use mathlib.Core.List.{append-nil}
use envoy_modsecurity.Prelude.Lists.{contains, any, is_empty}
use envoy_modsecurity.Prelude.Replace.{replace, has_text, replace-lines, replace-kept}
use envoy_modsecurity.Prelude.Split.{join-cons}
use envoy_modsecurity.Prelude.Text.{Str, codes, join, decimal, starts_with}
use envoy_modsecurity.SecLang.{seclang_path}
use envoy_modsecurity.Lab.Bootstrap.{
  bootstrap_lines, listener_lines, filter_lines, root_config_line, port_line,
  root_config_placeholder, port_placeholder, bootstrap_template, fill_template, write_bootstrap,
}

root_line :
    (path t : Str)
    → replace root_config_placeholder path (root_config_line root_config_placeholder ++ 0x0a ∷ t)
      ≡ root_config_line path ++ 0x0a ∷ replace root_config_placeholder path t
unfolding replace starts_with
root_line path t = refl

port_end :
    (port : Str)
    → replace port_placeholder port (join (codes "\n") (port_line port_placeholder ∷ [] ∷ []))
      ≡ join (codes "\n") (port_line port ∷ [] ∷ [])
unfolding replace starts_with join
port_end port = ap port_line (sym (append-nil (port ++ 0x0a ∷ [])))

no_root_after :
    any (has_text root_config_placeholder) (filter_lines ++ port_line port_placeholder ∷ []) ≡ false
unfolding any has_text starts_with
no_root_after = refl

no_root_before : any (has_text root_config_placeholder) listener_lines ≡ false
unfolding any has_text starts_with
no_root_before = refl

no_port :
    (path : Str)
    → has_text port_placeholder path ≡ false
    → any (has_text port_placeholder) (listener_lines ++ root_config_line path ∷ filter_lines)
      ≡ false
unfolding any has_text starts_with
no_port path h = ground arith

placeholders_plain :
    (contains root_config_placeholder 0x0a ≡ false) × (contains port_placeholder 0x0a ≡ false)
unfolding contains
placeholders_plain = (refl, refl)

root_config_first :
    (path : Str) (rest : List Str)
    → is_empty rest ≡ false
    → replace root_config_placeholder path (join (codes "\n") rest) ≡ join (codes "\n") rest
    → replace root_config_placeholder path
        (join (codes "\n") (root_config_line root_config_placeholder ∷ rest))
      ≡ join (codes "\n") (root_config_line path ∷ rest)
root_config_first path [] n h = cc
root_config_first path (m ∷ ms) n h =
    ap (replace root_config_placeholder path)
      (join-cons 0x0a (root_config_line root_config_placeholder) m ms)
    ∙ root_line path (join (codes "\n") (m ∷ ms))
    ∙ ap (λ t. root_config_line path ++ 0x0a ∷ t) h
    ∙ sym (join-cons 0x0a (root_config_line path) m ms)

abbrev rest_lines : List Str
rest_lines = filter_lines ++ port_line port_placeholder ∷ []

root_config_filled :
    (path : Str)
    → replace root_config_placeholder path bootstrap_template
      ≡ join (codes "\n") (bootstrap_lines path port_placeholder)
unfolding bootstrap_template
root_config_filled path =
    replace-lines root_config_placeholder path listener_lines
      (root_config_line root_config_placeholder) (root_config_line path) (rest_lines ++ [] ∷ [])
      (rest_lines ++ [] ∷ []) placeholders_plain.0 refl no_root_before
      (root_config_first path (rest_lines ++ [] ∷ []) refl (
        replace-kept root_config_placeholder path rest_lines placeholders_plain.0 refl
          no_root_after))

port_filled :
    (path port : Str)
    → has_text port_placeholder path ≡ false
    → replace port_placeholder port (join (codes "\n") (bootstrap_lines path port_placeholder))
      ≡ join (codes "\n") (bootstrap_lines path port)
port_filled path port h =
    replace-lines port_placeholder port (listener_lines ++ root_config_line path ∷ filter_lines)
      (port_line port_placeholder) (port_line port) ([] ∷ []) ([] ∷ []) placeholders_plain.1 refl
      (no_port path h) (port_end port)

fill_template_lem :
    (path : Str) (upstream_port : ℕ)
    → has_text port_placeholder path ≡ false
    → fill_template path upstream_port
      ≡ join (codes "\n") (bootstrap_lines path (decimal upstream_port))
unfolding fill_template
fill_template_lem path upstream_port h =
    ap (replace port_placeholder (decimal upstream_port)) (root_config_filled path)
    ∙ port_filled path (decimal upstream_port) h

-- For a path that SecLang accepts and that does not hold the placeholder of the port, the
-- bootstrap that is written is the template with the path and the port at their two places and
-- every other line as it is.
pub write_bootstrap_lem :
    (crs_config : Str) (upstream_port : ℕ) {path : Str}
    → has_text port_placeholder path ≡ false
    → seclang_path crs_config ≡ some path
    → write_bootstrap crs_config upstream_port
      ≡ some (join (codes "\n") (bootstrap_lines path (decimal upstream_port)))
unfolding write_bootstrap join
write_bootstrap_lem crs_config upstream_port {path} h accepted =
    rw (accepted, write_bootstrap) (ap some (fill_template_lem path upstream_port h))
