-- ===== src/Webui.antt =====
-- internal/webui: the local web interface. What is modelled of it is the single slot for runs.
pub mod Job
