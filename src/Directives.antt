-- ===== src/Directives.antt =====
-- src/awr/decorators.py: what a submitted document asks for.
mod Frontmatter
mod Parse
mod Bound
mod Examples
