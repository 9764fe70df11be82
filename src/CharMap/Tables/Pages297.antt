-- ===== src/CharMap/Tables/Pages297.antt =====
-- Tables of libtnX/transmaps.h: code pages 297, 500, 871, 870.
use linux_sna.Base.{[], ◌∷◌, Bytes}

-- iso_8859_1_to_ibm297
abbrev pub iso_8859_1_to_ibm297 : Bytes
iso_8859_1_to_ibm297 =
    0 ∷ 1 ∷ 2 ∷ 3 ∷ 55 ∷ 45 ∷ 46 ∷ 47 ∷ 22 ∷ 5 ∷ 37 ∷ 11 ∷ 12 ∷ 13 ∷ 14 ∷ 15 ∷ 16 ∷ 17 ∷ 18 ∷ 19
    ∷ 60 ∷ 61 ∷ 50 ∷ 38 ∷ 24 ∷ 25 ∷ 63 ∷ 39 ∷ 28 ∷ 29 ∷ 30 ∷ 31 ∷ 64 ∷ 79 ∷ 127 ∷ 177 ∷ 91 ∷ 108
    ∷ 80 ∷ 125 ∷ 77 ∷ 93 ∷ 92 ∷ 78 ∷ 107 ∷ 96 ∷ 75 ∷ 97 ∷ 240 ∷ 241 ∷ 242 ∷ 243 ∷ 244 ∷ 245 ∷ 246
    ∷ 247 ∷ 248 ∷ 249 ∷ 122 ∷ 94 ∷ 76 ∷ 126 ∷ 110 ∷ 111 ∷ 68 ∷ 193 ∷ 194 ∷ 195 ∷ 196 ∷ 197 ∷ 198
    ∷ 199 ∷ 200 ∷ 201 ∷ 209 ∷ 210 ∷ 211 ∷ 212 ∷ 213 ∷ 214 ∷ 215 ∷ 216 ∷ 217 ∷ 226 ∷ 227 ∷ 228 ∷ 229
    ∷ 230 ∷ 231 ∷ 232 ∷ 233 ∷ 144 ∷ 72 ∷ 181 ∷ 95 ∷ 109 ∷ 160 ∷ 129 ∷ 130 ∷ 131 ∷ 132 ∷ 133 ∷ 134
    ∷ 135 ∷ 136 ∷ 137 ∷ 145 ∷ 146 ∷ 147 ∷ 148 ∷ 149 ∷ 150 ∷ 151 ∷ 152 ∷ 153 ∷ 162 ∷ 163 ∷ 164 ∷ 165
    ∷ 166 ∷ 167 ∷ 168 ∷ 169 ∷ 81 ∷ 187 ∷ 84 ∷ 189 ∷ 7 ∷ 32 ∷ 33 ∷ 34 ∷ 35 ∷ 36 ∷ 21 ∷ 6 ∷ 23 ∷ 40
    ∷ 41 ∷ 42 ∷ 43 ∷ 44 ∷ 9 ∷ 10 ∷ 27 ∷ 48 ∷ 49 ∷ 26 ∷ 51 ∷ 52 ∷ 53 ∷ 54 ∷ 8 ∷ 56 ∷ 57 ∷ 58 ∷ 59 ∷ 4
    ∷ 20 ∷ 62 ∷ 255 ∷ 65 ∷ 170 ∷ 176 ∷ 123 ∷ 159 ∷ 178 ∷ 221 ∷ 90 ∷ 161 ∷ 180 ∷ 154 ∷ 138 ∷ 186
    ∷ 202 ∷ 175 ∷ 188 ∷ 74 ∷ 143 ∷ 234 ∷ 250 ∷ 190 ∷ 121 ∷ 182 ∷ 179 ∷ 157 ∷ 218 ∷ 155 ∷ 139 ∷ 183
    ∷ 184 ∷ 185 ∷ 171 ∷ 100 ∷ 101 ∷ 98 ∷ 102 ∷ 99 ∷ 103 ∷ 158 ∷ 104 ∷ 116 ∷ 113 ∷ 114 ∷ 115 ∷ 120
    ∷ 117 ∷ 118 ∷ 119 ∷ 172 ∷ 105 ∷ 237 ∷ 238 ∷ 235 ∷ 239 ∷ 236 ∷ 191 ∷ 128 ∷ 253 ∷ 254 ∷ 251 ∷ 252
    ∷ 173 ∷ 174 ∷ 89 ∷ 124 ∷ 69 ∷ 66 ∷ 70 ∷ 67 ∷ 71 ∷ 156 ∷ 224 ∷ 208 ∷ 192 ∷ 82 ∷ 83 ∷ 88 ∷ 85 ∷ 86
    ∷ 87 ∷ 140 ∷ 73 ∷ 205 ∷ 206 ∷ 203 ∷ 207 ∷ 204 ∷ 225 ∷ 112 ∷ 106 ∷ 222 ∷ 219 ∷ 220 ∷ 141 ∷ 142
    ∷ 223 ∷ []

-- ibm297_to_iso_8859_1
abbrev pub ibm297_to_iso_8859_1 : Bytes
ibm297_to_iso_8859_1 =
    0 ∷ 1 ∷ 2 ∷ 3 ∷ 156 ∷ 9 ∷ 134 ∷ 127 ∷ 151 ∷ 141 ∷ 142 ∷ 11 ∷ 12 ∷ 13 ∷ 14 ∷ 15 ∷ 16 ∷ 17 ∷ 18
    ∷ 19 ∷ 157 ∷ 133 ∷ 8 ∷ 135 ∷ 24 ∷ 25 ∷ 146 ∷ 143 ∷ 28 ∷ 29 ∷ 30 ∷ 31 ∷ 128 ∷ 129 ∷ 130 ∷ 131
    ∷ 132 ∷ 10 ∷ 23 ∷ 27 ∷ 136 ∷ 137 ∷ 138 ∷ 139 ∷ 140 ∷ 5 ∷ 6 ∷ 7 ∷ 144 ∷ 145 ∷ 22 ∷ 147 ∷ 148
    ∷ 149 ∷ 150 ∷ 4 ∷ 152 ∷ 153 ∷ 154 ∷ 155 ∷ 20 ∷ 21 ∷ 158 ∷ 26 ∷ 32 ∷ 160 ∷ 226 ∷ 228 ∷ 64 ∷ 225
    ∷ 227 ∷ 229 ∷ 92 ∷ 241 ∷ 176 ∷ 46 ∷ 60 ∷ 40 ∷ 43 ∷ 33 ∷ 38 ∷ 123 ∷ 234 ∷ 235 ∷ 125 ∷ 237 ∷ 238
    ∷ 239 ∷ 236 ∷ 223 ∷ 167 ∷ 36 ∷ 42 ∷ 41 ∷ 59 ∷ 94 ∷ 45 ∷ 47 ∷ 194 ∷ 196 ∷ 192 ∷ 193 ∷ 195 ∷ 197
    ∷ 199 ∷ 209 ∷ 249 ∷ 44 ∷ 37 ∷ 95 ∷ 62 ∷ 63 ∷ 248 ∷ 201 ∷ 202 ∷ 203 ∷ 200 ∷ 205 ∷ 206 ∷ 207 ∷ 204
    ∷ 181 ∷ 58 ∷ 163 ∷ 224 ∷ 39 ∷ 61 ∷ 34 ∷ 216 ∷ 97 ∷ 98 ∷ 99 ∷ 100 ∷ 101 ∷ 102 ∷ 103 ∷ 104 ∷ 105
    ∷ 171 ∷ 187 ∷ 240 ∷ 253 ∷ 254 ∷ 177 ∷ 91 ∷ 106 ∷ 107 ∷ 108 ∷ 109 ∷ 110 ∷ 111 ∷ 112 ∷ 113 ∷ 114
    ∷ 170 ∷ 186 ∷ 230 ∷ 184 ∷ 198 ∷ 164 ∷ 96 ∷ 168 ∷ 115 ∷ 116 ∷ 117 ∷ 118 ∷ 119 ∷ 120 ∷ 121 ∷ 122
    ∷ 161 ∷ 191 ∷ 208 ∷ 221 ∷ 222 ∷ 174 ∷ 162 ∷ 35 ∷ 165 ∷ 183 ∷ 169 ∷ 93 ∷ 182 ∷ 188 ∷ 189 ∷ 190
    ∷ 172 ∷ 124 ∷ 175 ∷ 126 ∷ 180 ∷ 215 ∷ 233 ∷ 65 ∷ 66 ∷ 67 ∷ 68 ∷ 69 ∷ 70 ∷ 71 ∷ 72 ∷ 73 ∷ 173
    ∷ 244 ∷ 246 ∷ 242 ∷ 243 ∷ 245 ∷ 232 ∷ 74 ∷ 75 ∷ 76 ∷ 77 ∷ 78 ∷ 79 ∷ 80 ∷ 81 ∷ 82 ∷ 185 ∷ 251
    ∷ 252 ∷ 166 ∷ 250 ∷ 255 ∷ 231 ∷ 247 ∷ 83 ∷ 84 ∷ 85 ∷ 86 ∷ 87 ∷ 88 ∷ 89 ∷ 90 ∷ 178 ∷ 212 ∷ 214
    ∷ 210 ∷ 211 ∷ 213 ∷ 48 ∷ 49 ∷ 50 ∷ 51 ∷ 52 ∷ 53 ∷ 54 ∷ 55 ∷ 56 ∷ 57 ∷ 179 ∷ 219 ∷ 220 ∷ 217
    ∷ 218 ∷ 159 ∷ []

-- iso_8859_1_to_ibm500
abbrev pub iso_8859_1_to_ibm500 : Bytes
iso_8859_1_to_ibm500 =
    0 ∷ 1 ∷ 2 ∷ 3 ∷ 55 ∷ 45 ∷ 46 ∷ 47 ∷ 22 ∷ 5 ∷ 37 ∷ 11 ∷ 12 ∷ 13 ∷ 14 ∷ 15 ∷ 16 ∷ 17 ∷ 18 ∷ 19
    ∷ 60 ∷ 61 ∷ 50 ∷ 38 ∷ 24 ∷ 25 ∷ 63 ∷ 39 ∷ 28 ∷ 29 ∷ 30 ∷ 31 ∷ 64 ∷ 79 ∷ 127 ∷ 123 ∷ 91 ∷ 108
    ∷ 80 ∷ 125 ∷ 77 ∷ 93 ∷ 92 ∷ 78 ∷ 107 ∷ 96 ∷ 75 ∷ 97 ∷ 240 ∷ 241 ∷ 242 ∷ 243 ∷ 244 ∷ 245 ∷ 246
    ∷ 247 ∷ 248 ∷ 249 ∷ 122 ∷ 94 ∷ 76 ∷ 126 ∷ 110 ∷ 111 ∷ 124 ∷ 193 ∷ 194 ∷ 195 ∷ 196 ∷ 197 ∷ 198
    ∷ 199 ∷ 200 ∷ 201 ∷ 209 ∷ 210 ∷ 211 ∷ 212 ∷ 213 ∷ 214 ∷ 215 ∷ 216 ∷ 217 ∷ 226 ∷ 227 ∷ 228 ∷ 229
    ∷ 230 ∷ 231 ∷ 232 ∷ 233 ∷ 74 ∷ 224 ∷ 90 ∷ 95 ∷ 109 ∷ 121 ∷ 129 ∷ 130 ∷ 131 ∷ 132 ∷ 133 ∷ 134
    ∷ 135 ∷ 136 ∷ 137 ∷ 145 ∷ 146 ∷ 147 ∷ 148 ∷ 149 ∷ 150 ∷ 151 ∷ 152 ∷ 153 ∷ 162 ∷ 163 ∷ 164 ∷ 165
    ∷ 166 ∷ 167 ∷ 168 ∷ 169 ∷ 192 ∷ 187 ∷ 208 ∷ 161 ∷ 7 ∷ 32 ∷ 33 ∷ 34 ∷ 35 ∷ 36 ∷ 21 ∷ 6 ∷ 23 ∷ 40
    ∷ 41 ∷ 42 ∷ 43 ∷ 44 ∷ 9 ∷ 10 ∷ 27 ∷ 48 ∷ 49 ∷ 26 ∷ 51 ∷ 52 ∷ 53 ∷ 54 ∷ 8 ∷ 56 ∷ 57 ∷ 58 ∷ 59 ∷ 4
    ∷ 20 ∷ 62 ∷ 255 ∷ 65 ∷ 170 ∷ 176 ∷ 177 ∷ 159 ∷ 178 ∷ 106 ∷ 181 ∷ 189 ∷ 180 ∷ 154 ∷ 138 ∷ 186
    ∷ 202 ∷ 175 ∷ 188 ∷ 144 ∷ 143 ∷ 234 ∷ 250 ∷ 190 ∷ 160 ∷ 182 ∷ 179 ∷ 157 ∷ 218 ∷ 155 ∷ 139 ∷ 183
    ∷ 184 ∷ 185 ∷ 171 ∷ 100 ∷ 101 ∷ 98 ∷ 102 ∷ 99 ∷ 103 ∷ 158 ∷ 104 ∷ 116 ∷ 113 ∷ 114 ∷ 115 ∷ 120
    ∷ 117 ∷ 118 ∷ 119 ∷ 172 ∷ 105 ∷ 237 ∷ 238 ∷ 235 ∷ 239 ∷ 236 ∷ 191 ∷ 128 ∷ 253 ∷ 254 ∷ 251 ∷ 252
    ∷ 173 ∷ 174 ∷ 89 ∷ 68 ∷ 69 ∷ 66 ∷ 70 ∷ 67 ∷ 71 ∷ 156 ∷ 72 ∷ 84 ∷ 81 ∷ 82 ∷ 83 ∷ 88 ∷ 85 ∷ 86
    ∷ 87 ∷ 140 ∷ 73 ∷ 205 ∷ 206 ∷ 203 ∷ 207 ∷ 204 ∷ 225 ∷ 112 ∷ 221 ∷ 222 ∷ 219 ∷ 220 ∷ 141 ∷ 142
    ∷ 223 ∷ []

-- ibm500_to_iso_8859_1
abbrev pub ibm500_to_iso_8859_1 : Bytes
ibm500_to_iso_8859_1 =
    0 ∷ 1 ∷ 2 ∷ 3 ∷ 156 ∷ 9 ∷ 134 ∷ 127 ∷ 151 ∷ 141 ∷ 142 ∷ 11 ∷ 12 ∷ 13 ∷ 14 ∷ 15 ∷ 16 ∷ 17 ∷ 18
    ∷ 19 ∷ 157 ∷ 133 ∷ 8 ∷ 135 ∷ 24 ∷ 25 ∷ 146 ∷ 143 ∷ 28 ∷ 29 ∷ 30 ∷ 31 ∷ 128 ∷ 129 ∷ 130 ∷ 131
    ∷ 132 ∷ 10 ∷ 23 ∷ 27 ∷ 136 ∷ 137 ∷ 138 ∷ 139 ∷ 140 ∷ 5 ∷ 6 ∷ 7 ∷ 144 ∷ 145 ∷ 22 ∷ 147 ∷ 148
    ∷ 149 ∷ 150 ∷ 4 ∷ 152 ∷ 153 ∷ 154 ∷ 155 ∷ 20 ∷ 21 ∷ 158 ∷ 26 ∷ 32 ∷ 160 ∷ 226 ∷ 228 ∷ 224 ∷ 225
    ∷ 227 ∷ 229 ∷ 231 ∷ 241 ∷ 91 ∷ 46 ∷ 60 ∷ 40 ∷ 43 ∷ 33 ∷ 38 ∷ 233 ∷ 234 ∷ 235 ∷ 232 ∷ 237 ∷ 238
    ∷ 239 ∷ 236 ∷ 223 ∷ 93 ∷ 36 ∷ 42 ∷ 41 ∷ 59 ∷ 94 ∷ 45 ∷ 47 ∷ 194 ∷ 196 ∷ 192 ∷ 193 ∷ 195 ∷ 197
    ∷ 199 ∷ 209 ∷ 166 ∷ 44 ∷ 37 ∷ 95 ∷ 62 ∷ 63 ∷ 248 ∷ 201 ∷ 202 ∷ 203 ∷ 200 ∷ 205 ∷ 206 ∷ 207 ∷ 204
    ∷ 96 ∷ 58 ∷ 35 ∷ 64 ∷ 39 ∷ 61 ∷ 34 ∷ 216 ∷ 97 ∷ 98 ∷ 99 ∷ 100 ∷ 101 ∷ 102 ∷ 103 ∷ 104 ∷ 105
    ∷ 171 ∷ 187 ∷ 240 ∷ 253 ∷ 254 ∷ 177 ∷ 176 ∷ 106 ∷ 107 ∷ 108 ∷ 109 ∷ 110 ∷ 111 ∷ 112 ∷ 113 ∷ 114
    ∷ 170 ∷ 186 ∷ 230 ∷ 184 ∷ 198 ∷ 164 ∷ 181 ∷ 126 ∷ 115 ∷ 116 ∷ 117 ∷ 118 ∷ 119 ∷ 120 ∷ 121 ∷ 122
    ∷ 161 ∷ 191 ∷ 208 ∷ 221 ∷ 222 ∷ 174 ∷ 162 ∷ 163 ∷ 165 ∷ 183 ∷ 169 ∷ 167 ∷ 182 ∷ 188 ∷ 189 ∷ 190
    ∷ 172 ∷ 124 ∷ 175 ∷ 168 ∷ 180 ∷ 215 ∷ 123 ∷ 65 ∷ 66 ∷ 67 ∷ 68 ∷ 69 ∷ 70 ∷ 71 ∷ 72 ∷ 73 ∷ 173
    ∷ 244 ∷ 246 ∷ 242 ∷ 243 ∷ 245 ∷ 125 ∷ 74 ∷ 75 ∷ 76 ∷ 77 ∷ 78 ∷ 79 ∷ 80 ∷ 81 ∷ 82 ∷ 185 ∷ 251
    ∷ 252 ∷ 249 ∷ 250 ∷ 255 ∷ 92 ∷ 247 ∷ 83 ∷ 84 ∷ 85 ∷ 86 ∷ 87 ∷ 88 ∷ 89 ∷ 90 ∷ 178 ∷ 212 ∷ 214
    ∷ 210 ∷ 211 ∷ 213 ∷ 48 ∷ 49 ∷ 50 ∷ 51 ∷ 52 ∷ 53 ∷ 54 ∷ 55 ∷ 56 ∷ 57 ∷ 179 ∷ 219 ∷ 220 ∷ 217
    ∷ 218 ∷ 159 ∷ []

-- iso_8859_1_to_ibm871
abbrev pub iso_8859_1_to_ibm871 : Bytes
iso_8859_1_to_ibm871 =
    0 ∷ 1 ∷ 2 ∷ 3 ∷ 55 ∷ 45 ∷ 46 ∷ 47 ∷ 22 ∷ 5 ∷ 37 ∷ 11 ∷ 12 ∷ 13 ∷ 14 ∷ 15 ∷ 16 ∷ 17 ∷ 18 ∷ 19
    ∷ 60 ∷ 61 ∷ 50 ∷ 38 ∷ 24 ∷ 25 ∷ 63 ∷ 39 ∷ 28 ∷ 29 ∷ 30 ∷ 31 ∷ 64 ∷ 79 ∷ 127 ∷ 123 ∷ 91 ∷ 108
    ∷ 80 ∷ 125 ∷ 77 ∷ 93 ∷ 92 ∷ 78 ∷ 107 ∷ 96 ∷ 75 ∷ 97 ∷ 240 ∷ 241 ∷ 242 ∷ 243 ∷ 244 ∷ 245 ∷ 246
    ∷ 247 ∷ 248 ∷ 249 ∷ 122 ∷ 94 ∷ 76 ∷ 126 ∷ 110 ∷ 111 ∷ 172 ∷ 193 ∷ 194 ∷ 195 ∷ 196 ∷ 197 ∷ 198
    ∷ 199 ∷ 200 ∷ 201 ∷ 209 ∷ 210 ∷ 211 ∷ 212 ∷ 213 ∷ 214 ∷ 215 ∷ 216 ∷ 217 ∷ 226 ∷ 227 ∷ 228 ∷ 229
    ∷ 230 ∷ 231 ∷ 232 ∷ 233 ∷ 174 ∷ 190 ∷ 158 ∷ 236 ∷ 109 ∷ 140 ∷ 129 ∷ 130 ∷ 131 ∷ 132 ∷ 133 ∷ 134
    ∷ 135 ∷ 136 ∷ 137 ∷ 145 ∷ 146 ∷ 147 ∷ 148 ∷ 149 ∷ 150 ∷ 151 ∷ 152 ∷ 153 ∷ 162 ∷ 163 ∷ 164 ∷ 165
    ∷ 166 ∷ 167 ∷ 168 ∷ 169 ∷ 142 ∷ 187 ∷ 156 ∷ 204 ∷ 7 ∷ 32 ∷ 33 ∷ 34 ∷ 35 ∷ 36 ∷ 21 ∷ 6 ∷ 23 ∷ 40
    ∷ 41 ∷ 42 ∷ 43 ∷ 44 ∷ 9 ∷ 10 ∷ 27 ∷ 48 ∷ 49 ∷ 26 ∷ 51 ∷ 52 ∷ 53 ∷ 54 ∷ 8 ∷ 56 ∷ 57 ∷ 58 ∷ 59 ∷ 4
    ∷ 20 ∷ 62 ∷ 255 ∷ 65 ∷ 170 ∷ 176 ∷ 177 ∷ 159 ∷ 178 ∷ 106 ∷ 181 ∷ 189 ∷ 180 ∷ 154 ∷ 138 ∷ 186
    ∷ 202 ∷ 175 ∷ 188 ∷ 144 ∷ 143 ∷ 234 ∷ 250 ∷ 224 ∷ 160 ∷ 182 ∷ 179 ∷ 157 ∷ 218 ∷ 155 ∷ 139 ∷ 183
    ∷ 184 ∷ 185 ∷ 171 ∷ 100 ∷ 101 ∷ 98 ∷ 102 ∷ 99 ∷ 103 ∷ 90 ∷ 104 ∷ 116 ∷ 113 ∷ 114 ∷ 115 ∷ 120
    ∷ 117 ∷ 118 ∷ 119 ∷ 124 ∷ 105 ∷ 237 ∷ 238 ∷ 235 ∷ 239 ∷ 95 ∷ 191 ∷ 128 ∷ 253 ∷ 254 ∷ 251 ∷ 252
    ∷ 173 ∷ 192 ∷ 89 ∷ 68 ∷ 69 ∷ 66 ∷ 70 ∷ 67 ∷ 71 ∷ 208 ∷ 72 ∷ 84 ∷ 81 ∷ 82 ∷ 83 ∷ 88 ∷ 85 ∷ 86
    ∷ 87 ∷ 121 ∷ 73 ∷ 205 ∷ 206 ∷ 203 ∷ 207 ∷ 161 ∷ 225 ∷ 112 ∷ 221 ∷ 222 ∷ 219 ∷ 220 ∷ 141 ∷ 74
    ∷ 223 ∷ []

-- ibm871_to_iso_8859_1
abbrev pub ibm871_to_iso_8859_1 : Bytes
ibm871_to_iso_8859_1 =
    0 ∷ 1 ∷ 2 ∷ 3 ∷ 156 ∷ 9 ∷ 134 ∷ 127 ∷ 151 ∷ 141 ∷ 142 ∷ 11 ∷ 12 ∷ 13 ∷ 14 ∷ 15 ∷ 16 ∷ 17 ∷ 18
    ∷ 19 ∷ 157 ∷ 133 ∷ 8 ∷ 135 ∷ 24 ∷ 25 ∷ 146 ∷ 143 ∷ 28 ∷ 29 ∷ 30 ∷ 31 ∷ 128 ∷ 129 ∷ 130 ∷ 131
    ∷ 132 ∷ 10 ∷ 23 ∷ 27 ∷ 136 ∷ 137 ∷ 138 ∷ 139 ∷ 140 ∷ 5 ∷ 6 ∷ 7 ∷ 144 ∷ 145 ∷ 22 ∷ 147 ∷ 148
    ∷ 149 ∷ 150 ∷ 4 ∷ 152 ∷ 153 ∷ 154 ∷ 155 ∷ 20 ∷ 21 ∷ 158 ∷ 26 ∷ 32 ∷ 160 ∷ 226 ∷ 228 ∷ 224 ∷ 225
    ∷ 227 ∷ 229 ∷ 231 ∷ 241 ∷ 254 ∷ 46 ∷ 60 ∷ 40 ∷ 43 ∷ 33 ∷ 38 ∷ 233 ∷ 234 ∷ 235 ∷ 232 ∷ 237 ∷ 238
    ∷ 239 ∷ 236 ∷ 223 ∷ 198 ∷ 36 ∷ 42 ∷ 41 ∷ 59 ∷ 214 ∷ 45 ∷ 47 ∷ 194 ∷ 196 ∷ 192 ∷ 193 ∷ 195 ∷ 197
    ∷ 199 ∷ 209 ∷ 166 ∷ 44 ∷ 37 ∷ 95 ∷ 62 ∷ 63 ∷ 248 ∷ 201 ∷ 202 ∷ 203 ∷ 200 ∷ 205 ∷ 206 ∷ 207 ∷ 204
    ∷ 240 ∷ 58 ∷ 35 ∷ 208 ∷ 39 ∷ 61 ∷ 34 ∷ 216 ∷ 97 ∷ 98 ∷ 99 ∷ 100 ∷ 101 ∷ 102 ∷ 103 ∷ 104 ∷ 105
    ∷ 171 ∷ 187 ∷ 96 ∷ 253 ∷ 123 ∷ 177 ∷ 176 ∷ 106 ∷ 107 ∷ 108 ∷ 109 ∷ 110 ∷ 111 ∷ 112 ∷ 113 ∷ 114
    ∷ 170 ∷ 186 ∷ 125 ∷ 184 ∷ 93 ∷ 164 ∷ 181 ∷ 246 ∷ 115 ∷ 116 ∷ 117 ∷ 118 ∷ 119 ∷ 120 ∷ 121 ∷ 122
    ∷ 161 ∷ 191 ∷ 64 ∷ 221 ∷ 91 ∷ 174 ∷ 162 ∷ 163 ∷ 165 ∷ 183 ∷ 169 ∷ 167 ∷ 182 ∷ 188 ∷ 189 ∷ 190
    ∷ 172 ∷ 124 ∷ 175 ∷ 168 ∷ 92 ∷ 215 ∷ 222 ∷ 65 ∷ 66 ∷ 67 ∷ 68 ∷ 69 ∷ 70 ∷ 71 ∷ 72 ∷ 73 ∷ 173
    ∷ 244 ∷ 126 ∷ 242 ∷ 243 ∷ 245 ∷ 230 ∷ 74 ∷ 75 ∷ 76 ∷ 77 ∷ 78 ∷ 79 ∷ 80 ∷ 81 ∷ 82 ∷ 185 ∷ 251
    ∷ 252 ∷ 249 ∷ 250 ∷ 255 ∷ 180 ∷ 247 ∷ 83 ∷ 84 ∷ 85 ∷ 86 ∷ 87 ∷ 88 ∷ 89 ∷ 90 ∷ 178 ∷ 212 ∷ 94
    ∷ 210 ∷ 211 ∷ 213 ∷ 48 ∷ 49 ∷ 50 ∷ 51 ∷ 52 ∷ 53 ∷ 54 ∷ 55 ∷ 56 ∷ 57 ∷ 179 ∷ 219 ∷ 220 ∷ 217
    ∷ 218 ∷ 159 ∷ []

-- iso_8859_2_to_ibm870
abbrev pub iso_8859_2_to_ibm870 : Bytes
iso_8859_2_to_ibm870 =
    0 ∷ 1 ∷ 2 ∷ 3 ∷ 55 ∷ 45 ∷ 46 ∷ 47 ∷ 22 ∷ 5 ∷ 37 ∷ 11 ∷ 12 ∷ 13 ∷ 14 ∷ 15 ∷ 16 ∷ 17 ∷ 18 ∷ 19
    ∷ 60 ∷ 61 ∷ 50 ∷ 38 ∷ 24 ∷ 25 ∷ 63 ∷ 39 ∷ 28 ∷ 29 ∷ 30 ∷ 31 ∷ 64 ∷ 79 ∷ 127 ∷ 123 ∷ 91 ∷ 108
    ∷ 80 ∷ 125 ∷ 77 ∷ 93 ∷ 92 ∷ 78 ∷ 107 ∷ 96 ∷ 75 ∷ 97 ∷ 240 ∷ 241 ∷ 242 ∷ 243 ∷ 244 ∷ 245 ∷ 246
    ∷ 247 ∷ 248 ∷ 249 ∷ 122 ∷ 94 ∷ 76 ∷ 126 ∷ 110 ∷ 111 ∷ 124 ∷ 193 ∷ 194 ∷ 195 ∷ 196 ∷ 197 ∷ 198
    ∷ 199 ∷ 200 ∷ 201 ∷ 209 ∷ 210 ∷ 211 ∷ 212 ∷ 213 ∷ 214 ∷ 215 ∷ 216 ∷ 217 ∷ 226 ∷ 227 ∷ 228 ∷ 229
    ∷ 230 ∷ 231 ∷ 232 ∷ 233 ∷ 74 ∷ 224 ∷ 90 ∷ 95 ∷ 109 ∷ 121 ∷ 129 ∷ 130 ∷ 131 ∷ 132 ∷ 133 ∷ 134
    ∷ 135 ∷ 136 ∷ 137 ∷ 145 ∷ 146 ∷ 147 ∷ 148 ∷ 149 ∷ 150 ∷ 151 ∷ 152 ∷ 153 ∷ 162 ∷ 163 ∷ 164 ∷ 165
    ∷ 166 ∷ 167 ∷ 168 ∷ 169 ∷ 192 ∷ 106 ∷ 208 ∷ 161 ∷ 7 ∷ 32 ∷ 33 ∷ 34 ∷ 35 ∷ 36 ∷ 21 ∷ 6 ∷ 23 ∷ 40
    ∷ 41 ∷ 42 ∷ 43 ∷ 44 ∷ 9 ∷ 10 ∷ 27 ∷ 48 ∷ 49 ∷ 26 ∷ 51 ∷ 52 ∷ 53 ∷ 54 ∷ 8 ∷ 56 ∷ 57 ∷ 58 ∷ 59 ∷ 4
    ∷ 20 ∷ 62 ∷ 255 ∷ 65 ∷ 177 ∷ 128 ∷ 82 ∷ 159 ∷ 119 ∷ 170 ∷ 181 ∷ 189 ∷ 188 ∷ 118 ∷ 253 ∷ 186
    ∷ 202 ∷ 185 ∷ 180 ∷ 144 ∷ 160 ∷ 158 ∷ 154 ∷ 190 ∷ 87 ∷ 138 ∷ 112 ∷ 157 ∷ 156 ∷ 143 ∷ 221 ∷ 184
    ∷ 100 ∷ 183 ∷ 178 ∷ 237 ∷ 101 ∷ 66 ∷ 68 ∷ 99 ∷ 120 ∷ 105 ∷ 104 ∷ 103 ∷ 113 ∷ 102 ∷ 115 ∷ 218
    ∷ 117 ∷ 114 ∷ 250 ∷ 172 ∷ 187 ∷ 171 ∷ 238 ∷ 235 ∷ 239 ∷ 236 ∷ 191 ∷ 174 ∷ 116 ∷ 254 ∷ 251 ∷ 252
    ∷ 173 ∷ 86 ∷ 89 ∷ 205 ∷ 69 ∷ 98 ∷ 70 ∷ 67 ∷ 88 ∷ 73 ∷ 72 ∷ 71 ∷ 81 ∷ 175 ∷ 83 ∷ 223 ∷ 85 ∷ 179
    ∷ 234 ∷ 140 ∷ 155 ∷ 139 ∷ 206 ∷ 203 ∷ 207 ∷ 204 ∷ 225 ∷ 142 ∷ 84 ∷ 222 ∷ 219 ∷ 220 ∷ 141 ∷ 176
    ∷ 182 ∷ []

-- ibm870_to_iso_8859_2
abbrev pub ibm870_to_iso_8859_2 : Bytes
ibm870_to_iso_8859_2 =
    0 ∷ 1 ∷ 2 ∷ 3 ∷ 156 ∷ 9 ∷ 134 ∷ 127 ∷ 151 ∷ 141 ∷ 142 ∷ 11 ∷ 12 ∷ 13 ∷ 14 ∷ 15 ∷ 16 ∷ 17 ∷ 18
    ∷ 19 ∷ 157 ∷ 133 ∷ 8 ∷ 135 ∷ 24 ∷ 25 ∷ 146 ∷ 143 ∷ 28 ∷ 29 ∷ 30 ∷ 31 ∷ 128 ∷ 129 ∷ 130 ∷ 131
    ∷ 132 ∷ 10 ∷ 23 ∷ 27 ∷ 136 ∷ 137 ∷ 138 ∷ 139 ∷ 140 ∷ 5 ∷ 6 ∷ 7 ∷ 144 ∷ 145 ∷ 22 ∷ 147 ∷ 148
    ∷ 149 ∷ 150 ∷ 4 ∷ 152 ∷ 153 ∷ 154 ∷ 155 ∷ 20 ∷ 21 ∷ 158 ∷ 26 ∷ 32 ∷ 160 ∷ 194 ∷ 228 ∷ 195 ∷ 225
    ∷ 227 ∷ 232 ∷ 231 ∷ 230 ∷ 91 ∷ 46 ∷ 60 ∷ 40 ∷ 43 ∷ 33 ∷ 38 ∷ 233 ∷ 163 ∷ 235 ∷ 249 ∷ 237 ∷ 222
    ∷ 181 ∷ 229 ∷ 223 ∷ 93 ∷ 36 ∷ 42 ∷ 41 ∷ 59 ∷ 94 ∷ 45 ∷ 47 ∷ 226 ∷ 196 ∷ 189 ∷ 193 ∷ 202 ∷ 200
    ∷ 199 ∷ 198 ∷ 124 ∷ 44 ∷ 37 ∷ 95 ∷ 62 ∷ 63 ∷ 183 ∷ 201 ∷ 206 ∷ 203 ∷ 217 ∷ 205 ∷ 170 ∷ 165 ∷ 197
    ∷ 96 ∷ 58 ∷ 35 ∷ 64 ∷ 39 ∷ 61 ∷ 34 ∷ 162 ∷ 97 ∷ 98 ∷ 99 ∷ 100 ∷ 101 ∷ 102 ∷ 103 ∷ 104 ∷ 105
    ∷ 182 ∷ 242 ∷ 240 ∷ 253 ∷ 248 ∷ 186 ∷ 176 ∷ 106 ∷ 107 ∷ 108 ∷ 109 ∷ 110 ∷ 111 ∷ 112 ∷ 113 ∷ 114
    ∷ 179 ∷ 241 ∷ 185 ∷ 184 ∷ 178 ∷ 164 ∷ 177 ∷ 126 ∷ 115 ∷ 116 ∷ 117 ∷ 118 ∷ 119 ∷ 120 ∷ 121 ∷ 122
    ∷ 166 ∷ 210 ∷ 208 ∷ 221 ∷ 216 ∷ 234 ∷ 254 ∷ 161 ∷ 191 ∷ 238 ∷ 175 ∷ 167 ∷ 255 ∷ 190 ∷ 188 ∷ 174
    ∷ 172 ∷ 209 ∷ 169 ∷ 168 ∷ 180 ∷ 215 ∷ 123 ∷ 65 ∷ 66 ∷ 67 ∷ 68 ∷ 69 ∷ 70 ∷ 71 ∷ 72 ∷ 73 ∷ 173
    ∷ 244 ∷ 246 ∷ 224 ∷ 243 ∷ 245 ∷ 125 ∷ 74 ∷ 75 ∷ 76 ∷ 77 ∷ 78 ∷ 79 ∷ 80 ∷ 81 ∷ 82 ∷ 204 ∷ 251
    ∷ 252 ∷ 187 ∷ 250 ∷ 236 ∷ 92 ∷ 247 ∷ 83 ∷ 84 ∷ 85 ∷ 86 ∷ 87 ∷ 88 ∷ 89 ∷ 90 ∷ 239 ∷ 212 ∷ 214
    ∷ 192 ∷ 211 ∷ 213 ∷ 48 ∷ 49 ∷ 50 ∷ 51 ∷ 52 ∷ 53 ∷ 54 ∷ 55 ∷ 56 ∷ 57 ∷ 207 ∷ 219 ∷ 220 ∷ 171
    ∷ 218 ∷ 159 ∷ []
