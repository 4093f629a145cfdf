-- ===== src/Tools/PaneText.antt =====
-- The text of a pane's status (src/tools.cpp `format_pane_info`).
use jjmcp.Base.{◌++◌, [], ◌∷◌}
use jjmcp.Text.{Bytes, codes, newline}
use jjmcp.Tmux.Commands.{PaneInfo}

unfoldable pub info_line : Bytes → Bytes → Bytes
info_line label value = label ++ value ++ newline ∷ []

unfoldable pub format_pane_info : PaneInfo → Bytes
unfolding info_line
format_pane_info info =
    info_line (codes "pane_id: ") info.pane_id
    ++ info_line (codes "session: ") info.session_name
    ++ info_line (codes "window_index: ") info.window_index
    ++ info_line (codes "pane_index: ") info.pane_index
    ++ info_line (codes "current_command: ") info.current_command
    ++ info_line (codes "title: ") info.title
    ++ info_line (codes "active: ") info.active
    ++ info_line (codes "dead: ") info.dead
    ++ info_line (codes "current_path: ") info.current_path
