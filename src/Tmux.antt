-- ===== src/Tmux.antt =====
-- src/tmux.cpp: the fields of tmux's format output, and the commands that are sent to tmux.
pub mod Fields
pub mod Commands
